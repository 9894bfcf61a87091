-- ===== src/Wire/Stream.antt =====
-- common/BinaryStream.h. A byte is a number, a buffer or a `std::string` is the list of its bytes.
pub mod Layout
pub mod Reads
use arena_game.Prelude.{
  ℕ, zero, suc, ◌+◌, ◌-◌, ◌*◌, ◌/◌, ◌%◌, ◌^◌, Bool, true, false, ◌||◌, not, Option, none, some,
  List, [], ◌∷◌, ◌++◌, ltb, leb, length, get_or, take, drop, bit_or, if◌then◌else◌,
}
use arena_game.Wire.Protocol.{max_string_bytes}

abbrev pub Bytes : Type 0
Bytes = List ℕ

-- `BinaryWriter` is its `buf_`.
abbrev pub Writer : Type 0
Writer = Bytes

unfoldable pub write_u8 : ℕ → Writer → Writer
write_u8 value buf = buf ++ (value ∷ [])

-- The loop of `writeUnsigned`, with `rounds` rounds to go.
unfoldable pub write_unsigned_loop : ℕ → ℕ → ℕ → Writer → Writer
write_unsigned_loop zero index value buf = buf
write_unsigned_loop (suc rounds) index value buf =
    write_unsigned_loop rounds (index + 1) value (buf ++ (value / 2 ^ (index * 8) % 256 ∷ []))

unfoldable pub write_u16 : ℕ → Writer → Writer
write_u16 value = write_unsigned_loop 2 0 value

unfoldable pub write_u32 : ℕ → Writer → Writer
write_u32 value = write_unsigned_loop 4 0 value

unfoldable pub write_u64 : ℕ → Writer → Writer
write_u64 value = write_unsigned_loop 8 0 value

unfoldable pub write_bytes : Bytes → Writer → Writer
write_bytes bytes buf = buf ++ bytes

-- `none` where `writeString` returns false.
unfoldable pub write_string : Bytes → Writer → Option Writer
write_string value buf =
    if ltb max_string_bytes (length value) || ltb (2 ^ 32 - 1) (length value)
    then none
    else some (write_bytes value (write_u32 (length value) buf))

-- `data_`, `len_`, `pos_`
pub record Reader : Type 0 where
  pub bytes : Bytes
  pub len : ℕ
  pub pos : ℕ

-- A reader over the whole of `bytes`, at its start.
abbrev pub reader_of : Bytes → Reader
reader_of bytes = record { bytes = bytes; len = length bytes; pos = 0 }

-- `none` where the read returns false: the callers then stop and use neither reader nor value.
abbrev pub Read : Type 0 → Type 0
Read A = Reader → Option (A × Reader)

infixl 5 ◌>>=◌ ◌>>◌
abbrev pub ◌>>=◌ : {A B : Type 0} → Read A → (A → Read B) → Read B
◌>>=◌ m f r = elim (m r) [ none ↦ none | some (a, r') ↦ f a r' ]

abbrev pub ◌>>◌ : {B : Type 0} → Read (Unit {0}) → Read B → Read B
m >> k = m >>= λ _. k

abbrev pub pure : {A : Type 0} → A → Read A
pure a r = some (a, r)

abbrev pub guard : Bool → Read (Unit {0})
guard b r = if b then some (tt, r) else none

-- `size_t` subtraction wraps.
unfoldable pub has : Reader → ℕ → Bool
has r count = leb count ((r.len + 2 ^ 64 - r.pos) % 2 ^ 64)

-- `data_[index]`
abbrev pub byte_at : Reader → ℕ → ℕ
byte_at r index = get_or r.bytes index 0

unfoldable pub read_u8 : Read ℕ
read_u8 r = if not (has r 1) then none else some (byte_at r r.pos, record r { pos = r.pos + 1 })

-- The loop of `readUnsigned`, with `rounds` rounds to go.
unfoldable pub read_unsigned_loop : ℕ → ℕ → ℕ → Reader → ℕ
read_unsigned_loop zero index value r = value
read_unsigned_loop (suc rounds) index value r =
    read_unsigned_loop rounds (index + 1)
      (bit_or value (byte_at r (r.pos + index) * 2 ^ (index * 8))) r

unfoldable pub read_unsigned : ℕ → Read ℕ
read_unsigned size r =
    if not (has r size)
    then none
    else some (read_unsigned_loop size 0 0 r, record r { pos = r.pos + size })

unfoldable pub read_u16 : Read ℕ
read_u16 = read_unsigned 2

unfoldable pub read_u32 : Read ℕ
read_u32 = read_unsigned 4

unfoldable pub read_u64 : Read ℕ
read_u64 = read_unsigned 8

-- `value.assign(data_ + pos_, length)`
unfoldable pub take_string : ℕ → Read Bytes
take_string length r = some (take length (drop r.pos r.bytes), record r { pos = r.pos + length })

unfoldable pub read_string : Read Bytes
read_string = do
  length ← read_u32
  guard (not (ltb max_string_bytes length))
  λ r. if not (has r length) then none else take_string length r

unfoldable pub eof : Reader → Bool
eof r = leb r.len r.pos

-- `&& reader.eof()` at the end of a decoder.
unfoldable pub at_end : Read (Unit {0})
at_end r = guard (eof r) r
