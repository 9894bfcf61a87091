-- ===== src/Server/Frames.antt =====
-- server/game/GameServer.cc: `onMessage`, which cuts the input into frames.
pub mod Messages
pub mod Progress
pub mod Delivery
use arena_game.Prelude.{
  ℕ, zero, suc, ◌+◌, ◌-◌, Bool, true, false, ◌||◌, Option, none, some, List, [], ◌==◌, nat_eq, ltb,
  leb, if◌then◌else◌,
}
use arena_game.Wire.Protocol.{
  MsgType, header_size, max_frame_size, msg_login_req, msg_register_req, msg_match_join_req,
  msg_hero_select_req, msg_battle_attack_req, msg_match_cancel_req,
}
use arena_game.Wire.Stream.{Bytes, Reader, reader_of, read_u16, read_u32, Read, ◌>>=◌, pure}
use arena_game.Net.Buffer.{Buffer, readable_bytes, peek, retrieve}
use arena_game.Server.State.{GameServer, World, Effect, shutdown, emit}
use arena_game.Server.Login.{handle_login, handle_register}
use arena_game.Server.Queueing.{handle_match_join, handle_match_cancel}
use arena_game.Server.Heroes.{handle_hero_select}
use arena_game.Server.Fighting.{handle_battle_attack}

-- The reads of the header, which does not fail on six bytes: total length and type.
unfoldable pub read_header : Read (ℕ × ℕ)
read_header = do total_len ← read_u32; msg_type ← read_u16; pure (total_len, msg_type)

-- `totalLen` and `msgType`, 0 where the reads fail.
unfoldable pub header_of : Buffer → ℕ × ℕ
unfolding read_header
header_of buf = elim (read_header (reader_of (peek header_size buf))) [
  | none ↦ (0, 0)
  | some (header, _) ↦ header
]

-- The `switch` over the message type. A heartbeat has no answer, as an unknown type has none.
unfoldable pub dispatch : MsgType → ℕ → Reader → World → GameServer → GameServer
dispatch msg_type conn_id reader world s =
    if msg_type == msg_login_req
    then handle_login conn_id reader s
    else (if msg_type == msg_register_req
        then handle_register conn_id reader world s
        else (if msg_type == msg_match_join_req
            then handle_match_join conn_id reader world s
            else (if msg_type == msg_hero_select_req
                then handle_hero_select conn_id reader s
                else (if msg_type == msg_battle_attack_req
                    then handle_battle_attack conn_id reader world s
                    else (if msg_type == msg_match_cancel_req
                        then handle_match_cancel conn_id reader s
                        else s)))))

-- The loop of `onMessage` with fuel; `none` means that the fuel ran out. `worlds` gives each round
-- its clock and the fate of its save.
unfoldable pub on_message_loop :
    ℕ → (ℕ → World) → ℕ → Buffer → GameServer → Option (Buffer × GameServer)
on_message_loop zero worlds conn_id buf s = none
on_message_loop (suc fuel) worlds conn_id buf s =
    let (total_len, msg_type) = header_of buf in
    let payload_len = total_len - header_size in
    let body = retrieve header_size buf in
    let rest =
      on_message_loop fuel (λ n. worlds (suc n)) conn_id (retrieve payload_len body)
        (dispatch msg_type conn_id (reader_of (peek payload_len body)) (worlds 0) s) in
    if ltb (readable_bytes buf) header_size
    then some (buf, s)
    else (if ltb total_len header_size || ltb max_frame_size total_len
        then some (buf, emit (shutdown conn_id) s)
        else (if ltb (readable_bytes buf) total_len then some (buf, s) else rest))

-- Each round takes a frame, six bytes at least, off the input.
unfoldable pub on_message : (ℕ → World) → ℕ → Buffer → GameServer → Option (Buffer × GameServer)
unfolding on_message_loop
on_message worlds conn_id buf s = on_message_loop (readable_bytes buf + 1) worlds conn_id buf s
