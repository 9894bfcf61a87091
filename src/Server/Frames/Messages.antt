-- ===== src/Server/Frames/Messages.antt =====
-- Messages as frames: what `sendToConnection` of server/game/GameServer.cc writes and what the header
-- of `onMessage` reads.
use arena_game.Prelude.{
  ℕ, ◌+◌, ◌^◌, ◌<◌, ◌≤◌, ◌≡◌, refl, sym, ap, ◌∙◌, some, [], ◌++◌, append-nil, append_assoc, arith,
  length, take, drop, length-append, take-append_length, drop-append_length,
}
use arena_game.Wire.Protocol.{MsgType, header_size, max_frame_size}
use arena_game.Wire.Stream.{Bytes, reader_of, read_u16, read_u32, write_bytes, ◌>>=◌}
use arena_game.Wire.Stream.Layout.{
  le_bytes, writes, length-le_bytes, read_unsigned-le_bytes, reader_at,
}
use arena_game.Net.Buffer.{Buffer, peek}
use arena_game.Net.Buffer.Contents.{Holds, peek-Holds}
use arena_game.Server.State.{frame}
use arena_game.Server.Frames.{read_header, header_of}

-- A message on the wire: its type and its payload, which fit into a frame.
pub record Message : Type 0 where
  pub msg_type : MsgType
  pub payload : Bytes

pub record Fits (m : Message) : Type 0 where
  pub type_fits : m.msg_type < 2 ^ 16
  pub payload_fits : header_size + length m.payload ≤ max_frame_size

-- The bytes that a sender writes.
abbrev pub frame_of : Message → Bytes
frame_of m = frame m.msg_type m.payload

abbrev pub header_bytes : Message → Bytes
header_bytes m = le_bytes 4 (header_size + length m.payload) ++ le_bytes 2 m.msg_type

frame_lem : (m : Message) → frame_of m ≡ header_bytes m ++ m.payload
unfolding frame write_bytes
frame_lem m = simp writes refl

pub length-header_bytes : (m : Message) → length (header_bytes m) ≡ header_size
length-header_bytes m = omega (
  arith,
  length-append (le_bytes 4 (header_size + length m.payload)) (le_bytes 2 m.msg_type),
  length-le_bytes 4 (header_size + length m.payload),
  length-le_bytes 2 m.msg_type,
)

pub read_header-header_bytes :
    (m : Message)
    → Fits m
    → read_header (reader_of (header_bytes m))
      ≡ some ((header_size + length m.payload, m.msg_type), reader_at (header_bytes m) [])
unfolding read_header read_u32 read_u16
read_header-header_bytes m f =
    let first =
      read_unsigned-le_bytes 4 (header_size + length m.payload) [] (le_bytes 2 m.msg_type)
        (omega (arith, f.payload_fits)) (omega (arith, length-header_bytes m)) in
    let second : read_u16
          (reader_at (le_bytes 4 (header_size + length m.payload)) (le_bytes 2 m.msg_type))
        ≡ some (m.msg_type, reader_at (header_bytes m) []) =
      rw (append-nil (le_bytes 2 m.msg_type)) at (
        read_unsigned-le_bytes 2 m.msg_type (le_bytes 4 (header_size + length m.payload)) []
          f.type_fits
          (omega
            (arith, length-append (le_bytes 2 m.msg_type) [], length-le_bytes 2 m.msg_type))) in
    rw (first, ◌>>=◌) (rw (second, ◌>>=◌) refl)

-- The header of a frame of which the first six bytes are there at least.
pub header_of-Holds :
    (m : Message) (buf : Buffer) (cs : Bytes)
    → Fits m
    → Holds buf cs
    → header_size ≤ length cs
    → take header_size cs ≡ header_bytes m
    → header_of buf ≡ (header_size + length m.payload, m.msg_type)
unfolding header_of
header_of-Holds m buf cs f h le e =
    let seen : peek header_size buf ≡ header_bytes m = peek-Holds header_size buf cs h le ∙ e in
    let read : read_header (reader_of (peek header_size buf))
        ≡ some ((header_size + length m.payload, m.msg_type), reader_at (header_bytes m) []) =
      ap (λ (z : Bytes). read_header (reader_of z)) seen ∙ read_header-header_bytes m f in
    rw (read, header_of) refl

-- The start of a frame that is not there whole.
pub record IsPartial (m : Message) (cs : Bytes) : Type 0 where
  pub rest : Bytes
  pub shape : frame_of m ≡ cs ++ rest
  pub missing : 0 < length rest

pub length-frame : (m : Message) → length (frame_of m) ≡ header_size + length m.payload
length-frame m =
    ap length (frame_lem m)
    ∙ omega (arith, length-append (header_bytes m) m.payload, length-header_bytes m)

pub take_front : (n : ℕ) (xs ys : Bytes) → length xs ≡ n → take n (xs ++ ys) ≡ xs
take_front n xs ys e = ap (λ (k : ℕ). take k (xs ++ ys)) (sym e) ∙ take-append_length xs ys

pub drop_front : (n : ℕ) (xs ys : Bytes) → length xs ≡ n → drop n (xs ++ ys) ≡ ys
drop_front n xs ys e = ap (λ (k : ℕ). drop k (xs ++ ys)) (sym e) ∙ drop-append_length xs ys

frame-append :
    (m : Message) (rest : Bytes) → frame_of m ++ rest ≡ header_bytes m ++ (m.payload ++ rest)
frame-append m rest =
    ap (λ (z : Bytes). z ++ rest) (frame_lem m) ∙ append_assoc (header_bytes m) m.payload rest

pub take-frame :
    (m : Message) (rest : Bytes) → take header_size (frame_of m ++ rest) ≡ header_bytes m
take-frame m rest =
    ap (take header_size) (frame-append m rest)
    ∙ take_front header_size (header_bytes m) (m.payload ++ rest) (length-header_bytes m)

pub drop-frame :
    (m : Message) (rest : Bytes) → drop header_size (frame_of m ++ rest) ≡ m.payload ++ rest
drop-frame m rest =
    ap (drop header_size) (frame-append m rest)
    ∙ drop_front header_size (header_bytes m) (m.payload ++ rest) (length-header_bytes m)
