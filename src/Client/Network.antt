-- ===== src/Client/Network.antt =====
-- client/ArenaClient/network/GameClient.h and GameClinet.cc: the client's end of the connection.
pub mod Delivery
pub mod Chunks
pub mod Progress
use arena_game.Prelude.{
  ℕ, zero, suc, ◌+◌, ◌-◌, ◌*◌, ◌%◌, ◌^◌, Bool, true, false, not, ◌||◌, Option, none, some, List, [],
  ◌∷◌, ◌++◌, ◌==◌, nat_eq, ltb, length, take, drop, if◌then◌else◌,
}
use arena_game.Prelude.Map.{Map, lookup, insert}
use arena_game.Wire.Protocol.{MsgType, header_size, max_frame_size}
use arena_game.Wire.Stream.{
  Bytes, Writer, write_u16, write_u32, write_bytes, Reader, reader_of, read_u16, read_u32, Read,
  ◌>>=◌, pure,
}

-- `socket_`: its state, and what was written to it.
pub data SocketState : Type 0 where
  unconnected connecting connected closing : SocketState

pub record Socket : Type 0 where
  pub state : SocketState
  pub written : Bytes

-- A handler reads a payload; it can use the socket and change what is outside, the scenes.
abbrev pub Handler : Type 0 → Type 0
Handler S = Reader → Socket × S → Socket × S

pub record GameClient (S : Type 0) : Type 0 where
  pub socket : Socket
  pub recv_buf : Bytes
  pub handlers : Map ℕ (Handler S)
  pub host : Bytes
  pub port : ℕ
  pub outside : S

abbrev is_connected_state : SocketState → Bool
is_connected_state unconnected = false
is_connected_state connecting = false
is_connected_state connected = true
is_connected_state closing = false

abbrev is_unconnected_state : SocketState → Bool
is_unconnected_state unconnected = true
is_unconnected_state connecting = false
is_unconnected_state connected = false
is_unconnected_state closing = false

-- A new client.
abbrev pub make_client : {S : Type 0} → S → GameClient S
make_client outside = record {
  socket = record { state = unconnected; written = [] };
  recv_buf = [];
  handlers = [];
  host = [];
  port = 0;
  outside = outside;
}

-- The reads of the header, which do not fail on six bytes: total length and type.
unfoldable pub read_header : Read (ℕ × ℕ)
read_header = do total_len ← read_u32; msg_type ← read_u16; pure (total_len, msg_type)

-- `totalLen` and `msgType`, 0 where the reads fail.
unfoldable pub header_of : Bytes → ℕ × ℕ
unfolding read_header
header_of bytes = elim (read_header (reader_of (take header_size bytes))) [
  | none ↦ (0, 0)
  | some (header, _) ↦ header
]

module _ {S : Type 0} where
  -- `connectToHost` starts to connect.
  unfoldable pub connect : Bytes → ℕ → GameClient S → GameClient S
  connect host port c = record c {
    host = host;
    port = port;
    socket = record c.socket { state = connecting };
  }

  -- `disconnectFromHost` closes once what was written is out.
  unfoldable pub disconnect : GameClient S → GameClient S
  disconnect c =
      if not (is_unconnected_state c.socket.state)
      then record c { socket = record c.socket { state = closing } }
      else c

  unfoldable pub is_connected : GameClient S → Bool
  is_connected c = is_connected_state c.socket.state

  unfoldable pub send_message : MsgType → Writer → GameClient S → GameClient S
  unfolding is_connected
  send_message type payload c =
      let frame =
        write_bytes payload (write_u16 type (write_u32 (header_size + length payload) [])) in
      if not (is_connected c)
      then c
      else record c { socket = record c.socket { written = c.socket.written ++ frame } }

  -- `handlers_[type] = handler`
  unfoldable pub register_handler : MsgType → Handler S → GameClient S → GameClient S
  register_handler type handler c = record c { handlers = insert type handler c.handlers }

  -- `handlers_.find(msgType)`, and the call of the handler that is there.
  unfoldable pub call_handler : Map ℕ (Handler S) → ℕ → Reader → Socket × S → Socket × S
  call_handler handlers type reader s = elim (lookup type handlers) [
    | none ↦ s
    | some handler ↦ handler reader s
  ]

  -- The loop of `processBuffer` with fuel; `none` means that the fuel ran out.
  unfoldable pub process_buffer_loop : ℕ → GameClient S → Option (GameClient S)
  unfolding header_of call_handler
  process_buffer_loop zero c = none
  process_buffer_loop (suc fuel) c =
      let (total_len, msg_type) = header_of c.recv_buf in
      let body = drop header_size c.recv_buf in
      let payload_len = total_len - header_size in
      let (socket, outside) =
        call_handler c.handlers msg_type (reader_of (take payload_len body))
          (c.socket, c.outside) in
      let rest =
        process_buffer_loop fuel
          (record c { socket = socket; outside = outside; recv_buf = drop payload_len body }) in
      if ltb (length c.recv_buf) header_size
      then some c
      else (if ltb total_len header_size || ltb max_frame_size total_len
          then some (record c { socket = record c.socket { state = closing } })
          else (if ltb (length c.recv_buf) total_len then some c else rest))

  -- Each round takes a frame, six bytes at least, off the buffer.
  unfoldable pub process_buffer : GameClient S → Option (GameClient S)
  unfolding process_buffer_loop
  process_buffer c = process_buffer_loop (length c.recv_buf + 1) c

  -- `arrived` is what `socket_->readAll()` returns.
  unfoldable pub on_ready_read : Bytes → GameClient S → Option (GameClient S)
  unfolding process_buffer
  on_ready_read arrived c = process_buffer (record c { recv_buf = c.recv_buf ++ arrived })

  -- Some arrivals, one after the other.
  abbrev pub receive_all : List Bytes → GameClient S → Option (GameClient S)
  receive_all [] c = some c
  receive_all (arrived ∷ more) c = elim (on_ready_read arrived c) [
    | none ↦ none
    | some d ↦ receive_all more d
  ]
