-- ===== src/Wire/Stream/Reads.antt =====
-- Decoders as chains of reads: what a chain does on the bytes that its reads stand for.
use arena_game.Prelude.{
  ℕ, ◌^◌, ◌≤◌, ◌<◌, ◌≡◌, refl, subst, true, Option, some, [], ◌∷◌, ◌++◌, append-nil, length,
  length-append, arith,
}
use mathlib.Core.Option
use arena_game.Wire.Protocol.{max_string_bytes}
use arena_game.Wire.Stream.{
  Bytes, Reader, Read, ◌>>=◌, ◌>>◌, pure, guard, read_u8, read_u16, read_u32, read_u64, read_string,
  at_end,
}
use arena_game.Wire.Stream.Layout.{
  le_bytes, string_bytes, reader_at, read_u8-cons, read_unsigned-le_bytes, read_string-string_bytes,
  eof-reader_at,
}

-- `m` takes `bytes` off any input and returns `a`.
pub record Reads {A : Type 0} (m : Read A) (bytes : Bytes) (a : A) : Type 0 where
  apply :
      (before rest : Bytes)
      → length (bytes ++ rest) < 2 ^ 64
      → m (reader_at before (bytes ++ rest)) ≡ some (a, reader_at (before ++ bytes) rest)

-- What a decoder returns on the whole of an input.
abbrev pub result : {A : Type 0} → Option (A × Reader) → Option A
result = Option.map (λ p. p.0)

-- `m` returns `a` where `bytes` is all that is left.
pub record ReadsAll {A : Type 0} (m : Read A) (bytes : Bytes) (a : A) : Type 0 where
  pub apply :
      (before : Bytes) → length bytes < 2 ^ 64 → result (m (reader_at before bytes)) ≡ some a

pub u8-Reads : (v : ℕ) → Reads read_u8 (v ∷ []) v
u8-Reads v = record { apply = read_u8-cons v }

pub u16-Reads : (v : ℕ) → v < 2 ^ 16 → Reads read_u16 (le_bytes 2 v) v
u16-Reads v h = record {
  apply = λ before rest l. unfold read_u16 in read_unsigned-le_bytes 2 v before rest h l;
}

pub u32-Reads : (v : ℕ) → v < 2 ^ 32 → Reads read_u32 (le_bytes 4 v) v
u32-Reads v h = record {
  apply = λ before rest l. unfold read_u32 in read_unsigned-le_bytes 4 v before rest h l;
}

pub u64-Reads : (v : ℕ) → v < 2 ^ 64 → Reads read_u64 (le_bytes 8 v) v
u64-Reads v h = record {
  apply = λ before rest l. unfold read_u64 in read_unsigned-le_bytes 8 v before rest h l;
}

pub string-Reads : (s : Bytes) → length s ≤ max_string_bytes → Reads read_string (string_bytes s) s
string-Reads s h = record { apply = λ before rest l. read_string-string_bytes s before rest h l }

-- One read, then the rest of the chain.
pub bind-ReadsAll :
    {A B : Type 0} {m : Read A} {bs : Bytes} {a : A} (f : A → Read B) {cs : Bytes} {b : B}
    → Reads m bs a
    → ReadsAll (f a) cs b
    → ReadsAll (m >>= f) (bs ++ cs) b
bind-ReadsAll {bs} f {cs} first more = record {
  apply = λ before l.
      rw (first.apply before cs l, ◌>>=◌)
        (more.apply (before ++ bs) (omega (arith, length-append bs cs)));
}

-- The last read of a chain.
pub last-ReadsAll :
    {A B : Type 0} {m : Read A} {bs : Bytes} {a : A} (f : A → Read B) {b : B}
    → Reads m bs a
    → ReadsAll (f a) [] b
    → ReadsAll (m >>= f) bs b
last-ReadsAll {m} {bs} f {b} first more =
    subst (λ z. ReadsAll (m >>= f) z b) (append-nil bs) (bind-ReadsAll f first more)

-- The end of every decoder.
pub end-ReadsAll : {A : Type 0} (a : A) → ReadsAll (at_end >> pure a) [] a
unfolding at_end
end-ReadsAll a = record { apply = λ before l. rw (eof-reader_at before, ◌>>=◌) refl }

-- A test that passes.
pub guard-ReadsAll :
    {A : Type 0} {k : Read A} {bs : Bytes} {a : A}
    → ReadsAll k bs a
    → ReadsAll (guard true >> k) bs a
guard-ReadsAll more = record { apply = more.apply }

pub ruleset reading = (
  bind-ReadsAll, last-ReadsAll, end-ReadsAll, guard-ReadsAll, u8-Reads, u16-Reads, u32-Reads,
  u64-Reads, string-Reads,
)
