-- ===== src/Wire/Messages/RoundTrip.antt =====
-- What one side encodes is what the other side decodes: the common part; the children go
-- through the messages of common/GameMessages.h.
pub mod Accounts
pub mod Matching
pub mod Battle
use arena_game.Prelude.{
  ℕ, ◌+◌, ◌^◌, ◌≤◌, ◌<◌, ◌≡◌, refl, Bool, true, false, Option, none, some, List, [], ◌∷◌, ◌++◌,
  length, length-append, arith, if◌then◌else◌,
}
use arena_game.Wire.Protocol.{max_string_bytes}
use arena_game.Wire.Stream.{
  Bytes, Writer, Read, ◌>>=◌, ◌>>◌, pure, reader_of, read_u16, read_string, at_end,
}
use arena_game.Wire.Stream.Layout.{le_bytes, string_bytes, writes, lengths}
use arena_game.Wire.Stream.Reads.{
  result, ReadsAll, reading, bind-ReadsAll, last-ReadsAll, guard-ReadsAll, u8-Reads, u16-Reads,
  u32-Reads, u64-Reads, string-Reads, end-ReadsAll,
}

-- What the receiver's decoder makes of the sender's encoding.
abbrev pub sent : {A : Type 0} → (A → Writer → Option Writer) → Read A → A → Option A
sent encode decode value = elim (encode value []) [
  | none ↦ none
  | some bytes ↦ result (decode (reader_of bytes))
]

pub sent_as :
    {A : Type 0} (encode : A → Writer → Option Writer) (decode : Read A) (value shown : A)
    (bytes : Bytes)
    → encode value [] ≡ some bytes
    → ReadsAll decode bytes shown
    → length bytes < 2 ^ 64
    → sent encode decode value ≡ some shown
sent_as encode decode value shown bytes e d h = rw (e, sent) (d.apply [] h)

pub sent_lem :
    {A : Type 0} (encode : A → Writer → Option Writer) (decode : Read A) (value : A) (bytes : Bytes)
    → encode value [] ≡ some bytes
    → ReadsAll decode bytes value
    → length bytes < 2 ^ 64
    → sent encode decode value ≡ some value
sent_lem encode decode value = sent_as encode decode value value

-- The tail that all refusals share: the error code and its message.
pub refusal-ReadsAll :
    {A : Type 0} (f : ℕ → Bytes → A) (code : ℕ) (message : Bytes)
    → code < 2 ^ 16
    → length message ≤ max_string_bytes
    → ReadsAll
        (do code ← read_u16; message ← read_string; at_end; pure (f code message))
        (le_bytes 2 code ++ string_bytes message)
        (f code message)
refusal-ReadsAll f code message c m =
    bind-ReadsAll _ (u16-Reads code c)
      (last-ReadsAll _ (string-Reads message m) (end-ReadsAll (f code message)))
