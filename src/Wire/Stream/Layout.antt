-- ===== src/Wire/Stream/Layout.antt =====
-- What the writer appends, and that the reader takes exactly that back.
use arena_game.Prelude.{
  ℕ, zero, suc, ◌+◌, ◌-◌, ◌*◌, ◌/◌, ◌%◌, ◌^◌, ◌≤◌, ◌<◌, ◌≡◌, refl, sym, ap, ◌∙◌, Option, none, some,
  List, [], ◌∷◌, ◌++◌, append-nil, append_assoc, length, length-append, take-append_length, Bool,
  true, false, drop-append_length, get_or, ltb, leb, le→leb, get_or-append_length, take, drop,
  arith, bit_or,
}
use arena_game.Prelude.Bits.{bit_or_disjoint}
use native.Mathlib.Nat.{div-div-eq-div-mul, pow-suc, div-add-mod, add_assoc, add-zero}
use native.Mathlib.Numerals.{towards_suc}
use arena_game.Wire.Protocol.{max_string_bytes}
use arena_game.Wire.Stream.{
  Bytes, write_u8, write_unsigned_loop, write_u16, write_u32, write_u64, write_bytes, write_string,
  Reader, has, read_u8, read_unsigned_loop, read_unsigned, read_u32, take_string, read_string, eof,
  ◌>>=◌, guard,
}

-- The `n` low bytes of a number, lowest first.
unfoldable pub le_bytes : ℕ → ℕ → Bytes
le_bytes zero v = []
le_bytes (suc n) v = v % 256 ∷ le_bytes n (v / 256)

pub length-le_bytes : (n v : ℕ) → length (le_bytes n v) ≡ n
unfolding le_bytes
length-le_bytes zero v = refl
length-le_bytes (suc n) v = ap suc (length-le_bytes n (v / 256))

pub pow_eight : (i : ℕ) → 2 ^ ((i + 1) * 8) ≡ 2 ^ (i * 8) * 256
pow_eight i = let e : (i + 1) * 8 ≡ i * 8 + 8 = omega arith in rw e (simp towards_suc (omega arith))

shift_step : (v i : ℕ) → v / 2 ^ (i * 8) / 256 ≡ v / 2 ^ ((i + 1) * 8)
shift_step v i = rw (pow_eight i, div-div-eq-div-mul) refl

write_unsigned_loop-le_bytes :
    (n i v : ℕ) (buf : Bytes) → write_unsigned_loop n i v buf ≡ buf ++ le_bytes n (v / 2 ^ (i * 8))
unfolding write_unsigned_loop le_bytes
write_unsigned_loop-le_bytes zero i v buf = sym (append-nil buf)
write_unsigned_loop-le_bytes (suc n) i v buf =
    write_unsigned_loop-le_bytes n (i + 1) v _ ∙ rw (append_assoc, ← shift_step v i)

write_unsigned_lem : (n v : ℕ) (buf : Bytes) → write_unsigned_loop n 0 v buf ≡ buf ++ le_bytes n v
write_unsigned_lem n v buf =
    let e : v / 2 ^ (0 * 8) ≡ v = omega arith in rw e at (write_unsigned_loop-le_bytes n 0 v buf)

pub write_u8_lem : (v : ℕ) (buf : Bytes) → write_u8 v buf ≡ buf ++ (v ∷ [])
unfolding write_u8
write_u8_lem v buf = refl

pub write_u16-le_bytes : (v : ℕ) (buf : Bytes) → write_u16 v buf ≡ buf ++ le_bytes 2 v
write_u16-le_bytes v buf = unfold write_u16 in write_unsigned_lem 2 v buf

pub write_u32-le_bytes : (v : ℕ) (buf : Bytes) → write_u32 v buf ≡ buf ++ le_bytes 4 v
write_u32-le_bytes v buf = unfold write_u32 in write_unsigned_lem 4 v buf

pub write_u64-le_bytes : (v : ℕ) (buf : Bytes) → write_u64 v buf ≡ buf ++ le_bytes 8 v
write_u64-le_bytes v buf = unfold write_u64 in write_unsigned_lem 8 v buf

-- A string goes over the wire as its length and its bytes.
unfoldable pub string_bytes : Bytes → Bytes
string_bytes s = le_bytes 4 (length s) ++ s

pub write_string-string_bytes :
    (s buf : Bytes)
    → length s ≤ max_string_bytes
    → write_string s buf ≡ some (buf ++ string_bytes s)
unfolding write_string write_bytes string_bytes
write_string-string_bytes s buf h =
    ground (arith, write_u32-le_bytes (length s) buf, append_assoc buf (le_bytes 4 (length s)) s)

pub ruleset writes = (
  write_u8_lem, write_u16-le_bytes, write_u32-le_bytes, write_u64-le_bytes,
  write_string-string_bytes, append_assoc,
)

-- A reader that has `before` behind it and `rest` ahead.
abbrev pub reader_at : Bytes → Bytes → Reader
reader_at before rest = record {
  bytes = before ++ rest;
  len = length (before ++ rest);
  pos = length before;
}

pub has-reader_at :
    (before rest : Bytes) (count : ℕ)
    → length rest < 2 ^ 64
    → has (reader_at before rest) count ≡ leb count (length rest)
unfolding has
has-reader_at before rest count h =
    let e : (length (before ++ rest) + 2 ^ 64 - length before) % 2 ^ 64 ≡ length rest =
      omega (arith, length-append before rest) in
    rw e

drop-cons :
    (k : ℕ) (bs : Bytes) {y : ℕ} {ys : Bytes}
    → drop k bs ≡ y ∷ ys
    → (get_or bs k 0 ≡ y) × (drop (k + 1) bs ≡ ys)
drop-cons zero [] h = cc
drop-cons zero (b ∷ bs) h = ground arith
drop-cons (suc k) [] h = cc
drop-cons (suc k) (b ∷ bs) h = ground (arith, drop-cons k bs h)

room_for_byte : (acc b p : ℕ) → acc < p → b < 256 → acc + b * p < p * 256
room_for_byte acc b p h k = grind arith

byte_and_rest : (acc w p : ℕ) → acc + w % 256 * p + w / 256 * (p * 256) ≡ acc + w * p
byte_and_rest acc w p = omega (arith, ap (λ (t : ℕ). t * p) (div-add-mod w 256))

read_unsigned_loop-le_bytes :
    (n i acc w : ℕ) (r : Reader) (rest : Bytes)
    → acc < 2 ^ (i * 8)
    → w < 256 ^ n
    → drop (r.pos + i) r.bytes ≡ le_bytes n w ++ rest
    → read_unsigned_loop n i acc r ≡ acc + w * 2 ^ (i * 8)
unfolding read_unsigned_loop le_bytes
read_unsigned_loop-le_bytes zero i acc w r rest ha hw e =
    let z : w ≡ 0 = omega arith in rw z (omega arith)
read_unsigned_loop-le_bytes (suc n) i acc w r rest ha hw e =
    let (here, after) = drop-cons (r.pos + i) r.bytes e in
    rw (here, bit_or_disjoint (i * 8) acc (w % 256) ha)
      (read_unsigned_loop-le_bytes n (i + 1) _ (w / 256) r rest
          (rw pow_eight (room_for_byte acc (w % 256) (2 ^ (i * 8)) ha (omega arith)))
          (omega (arith, pow-suc 256 n)) (rw (← add_assoc r.pos i 1) after)
        ∙ rw pow_eight (byte_and_rest acc w (2 ^ (i * 8))))

-- What `pos_ += count` leaves.
advance :
    (before taken rest : Bytes) (count : ℕ)
    → length taken ≡ count
    → record (reader_at before (taken ++ rest)) { pos = length before + count }
      ≡ reader_at (before ++ taken) rest
advance before taken rest count h = rw (append_assoc, length-append before taken, h) refl

pub read_unsigned-le_bytes :
    (n v : ℕ) (before rest : Bytes)
    → v < 256 ^ n
    → length (le_bytes n v ++ rest) < 2 ^ 64
    → read_unsigned n (reader_at before (le_bytes n v ++ rest))
      ≡ some (v, reader_at (before ++ le_bytes n v) rest)
unfolding read_unsigned
read_unsigned-le_bytes n v before rest hv h =
    let r : Reader = reader_at before (le_bytes n v ++ rest) in
    let ahead : drop (length before + 0) r.bytes ≡ le_bytes n v ++ rest =
      rw add-zero (drop-append_length before (le_bytes n v ++ rest)) in
    let value : read_unsigned_loop n 0 0 r ≡ v =
      read_unsigned_loop-le_bytes n 0 0 v r rest (omega arith) hv ahead ∙ omega arith in
    let ok : has r n ≡ true =
      has-reader_at before (le_bytes n v ++ rest) n h
      ∙ le→leb n _ (omega (arith, length-append (le_bytes n v) rest, length-le_bytes n v)) in
    rw (ok, value, advance before (le_bytes n v) rest n (length-le_bytes n v)) refl

pub read_u8-cons :
    (v : ℕ) (before rest : Bytes)
    → length (v ∷ rest) < 2 ^ 64
    → read_u8 (reader_at before (v ∷ rest)) ≡ some (v, reader_at (before ++ (v ∷ [])) rest)
unfolding read_u8
read_u8-cons v before rest h =
    let ok : has (reader_at before (v ∷ rest)) 1 ≡ true =
      has-reader_at before (v ∷ rest) 1 h ∙ le→leb 1 _ (omega arith) in
    rw (ok, get_or-append_length before v rest 0, advance before (v ∷ []) rest 1 refl) refl

take_string_lem :
    (s before rest : Bytes)
    → take_string (length s) (reader_at before (s ++ rest)) ≡ some (s, reader_at (before ++ s) rest)
unfolding take_string
take_string_lem s before rest =
    rw (drop-append_length, take-append_length, advance before s rest (length s) refl) refl

read_string_lem :
    (s before rest : Bytes)
    → length s ≤ max_string_bytes
    → length (le_bytes 4 (length s) ++ (s ++ rest)) < 2 ^ 64
    → read_string (reader_at before (le_bytes 4 (length s) ++ (s ++ rest)))
      ≡ some (s, reader_at (before ++ (le_bytes 4 (length s) ++ s)) rest)
unfolding read_string
read_string_lem s before rest hs h =
    let front : Bytes = before ++ le_bytes 4 (length s) in
    let n : read_u32 (reader_at before (le_bytes 4 (length s) ++ (s ++ rest)))
        ≡ some (length s, reader_at front (s ++ rest)) =
      unfold read_u32 in read_unsigned-le_bytes 4 (length s) before (s ++ rest) (omega arith) h in
    let fits : ltb max_string_bytes (length s) ≡ false = ground arith in
    let ok : has (reader_at front (s ++ rest)) (length s) ≡ true =
      has-reader_at front (s ++ rest) (length s)
        (omega (arith, length-append (le_bytes 4 (length s)) (s ++ rest)))
      ∙ le→leb (length s) _ (omega (arith, length-append s rest)) in
    rw (n, ◌>>=◌, guard) (rw fits (rw (ok, take_string_lem s front rest, append_assoc before) refl))

pub read_string-string_bytes :
    (s before rest : Bytes)
    → length s ≤ max_string_bytes
    → length (string_bytes s ++ rest) < 2 ^ 64
    → read_string (reader_at before (string_bytes s ++ rest))
      ≡ some (s, reader_at (before ++ string_bytes s) rest)
unfolding string_bytes
read_string-string_bytes s before rest hs h =
    rw append_assoc (read_string_lem s before rest hs (rw append_assoc at h))

pub eof-reader_at : (before : Bytes) → eof (reader_at before []) ≡ true
unfolding eof
eof-reader_at before = le→leb _ _ (omega (arith, length-append before []))

pub eof-reader_at_cons :
    (before : Bytes) (v : ℕ) (rest : Bytes) → eof (reader_at before (v ∷ rest)) ≡ false
unfolding eof
eof-reader_at_cons before v rest = ground (arith, length-append before (v ∷ rest))

pub length-string_bytes : (s : Bytes) → length (string_bytes s) ≡ 4 + length s
unfolding string_bytes
length-string_bytes s =
    omega (arith, length-append (le_bytes 4 (length s)) s, length-le_bytes 4 (length s))

pub ruleset lengths = (length-append, length-le_bytes, length-string_bytes)
