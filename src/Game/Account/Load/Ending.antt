-- ===== src/Game/Account/Load/Ending.antt =====
-- The loop of `load` of server/game/AccountRepository.cc ends on every file.
use arena_game.Prelude.{
  ℕ, zero, suc, ◌+◌, ◌≤◌, ◌<◌, ◌-◌, ◌^◌, ltb, ◌⊎◌, ◌≡◌, refl, Bool, true, false, not, Option, none,
  some, [], ◌∷◌, length, arith, Option-cases, Bool-cases, inl, inr,
}
use arena_game.Wire.Stream.{Bytes}
use arena_game.Game.Account.{AccountRepository, is_space}
use arena_game.Game.Account.Load.{
  Input, Extracted, failed, extracted, ◌>>=◌, sentry, skip_space, span, is_digit, digits_value,
  at_end, take_sign, read_digits, read_word, read_u32, read_line, Line, Loaded, none_loaded,
  load_line, load_loop, load, LoadOutcome, finish_load,
}

-- What is read leaves fewer than `n` bytes.
abbrev Leaves : {A : Type 0} → ℕ → Extracted A → Type 0
Leaves n (failed eof) = Unit {0}
Leaves n (extracted a input) = length input.rest < n

le_lt_trans : {a b c : ℕ} → a ≤ b → b < c → a < c
le_lt_trans h g = omega arith

bind-Leaves :
    {A B : Type 0} (n k : ℕ) (e : Extracted A) (f : A → Input → Extracted B)
    → Leaves n e
    → ((a : A) (input : Input) → length input.rest < n → Leaves k (f a input))
    → Leaves k (e >>= f)
bind-Leaves n k (failed eof) f h g = tt
bind-Leaves n k (extracted a input) f h g = g a input h

length-skip_space : (s : Bytes) → length (skip_space s) ≤ length s
unfolding skip_space
length-skip_space [] = omega arith
length-skip_space (c ∷ s) = ground (arith, length-skip_space s)

-- What is skipped ends before something that is no space.
skip_space-first : (s : Bytes) (c : ℕ) (t : Bytes) → skip_space s ≡ c ∷ t → is_space c ≡ false
unfolding skip_space
skip_space-first [] c t e = absurd (ground (arith, e))
skip_space-first (d ∷ s) c t e = ground (arith, e, skip_space-first s c t)

length-span : (p : ℕ → Bool) (s : Bytes) → length (span p s).1 ≤ length s
unfolding span
length-span p [] = omega arith
length-span p (c ∷ s) = ground (arith, length-span p s)

length-take_sign : (s : Bytes) → length (take_sign s).1 ≤ length s
length-take_sign [] = omega arith
length-take_sign (c ∷ s) = ground arith

-- What follows the start of every `>>`.
pub record Starts (input : Input) (c : ℕ) (s : Bytes) : Type 0 where
  pub started : sentry input ≡ extracted (c ∷ s) input
  pub solid : is_space c ≡ false
  pub fits : suc (length s) ≤ length input.rest

List-cases : (s : Bytes) → (s ≡ []) ⊎ ((c : ℕ) × (t : Bytes) × (s ≡ c ∷ t))
List-cases [] = inl refl
List-cases (c ∷ t) = inr (c, t, refl)

sentry-cases :
    (input : Input)
    → ((eof : Bool) × (sentry input ≡ failed eof)) ⊎ ((c : ℕ) × (s : Bytes) × Starts input c s)
unfolding sentry
sentry-cases input = elim (Bool-cases input.eof) [
  | inl e ↦ inl (true, rw e refl)
  | inr e ↦ elim (List-cases (skip_space input.rest)) [
    | inl n ↦ inl (true, rw e (rw n refl))
    | inr (c, t, n) ↦ inr (
      c,
      t,
      record {
        started = ground (arith, e, n);
        solid = skip_space-first input.rest c t n;
        fits = rw n at (length-skip_space input.rest);
      },
    )
  ]
]

read_word-Leaves : (n : ℕ) (input : Input) → length input.rest ≤ n → Leaves n (read_word input)
unfolding read_word span
read_word-Leaves n input h = elim (sentry-cases input) [
  | inl (eof, e) ↦ rw e tt
  | inr (c, t, s) ↦
      rw s.started (
        rw s.solid (le_lt_trans (length-span (λ d. not (is_space d)) t) (omega (arith, h, s.fits))))
]

read_digits-Leaves :
    (n : ℕ) (negative : Bool) (digits : Bytes × Bytes)
    → length digits.1 < n
    → Leaves n (read_digits negative digits)
unfolding read_digits
read_digits-Leaves n negative ([], r) h = tt
read_digits-Leaves n negative (c ∷ w, r) h =
    elim (Bool-cases (ltb (2 ^ 32 - 1) (digits_value 0 (c ∷ w)))) [
      | inl e ↦ rw e tt
      | inr e ↦ rw e h
    ]

read_u32-Leaves : (n : ℕ) (input : Input) → length input.rest < n → Leaves n (read_u32 input)
unfolding read_u32
read_u32-Leaves n input h = elim (sentry-cases input) [
  | inl (eof, e) ↦ rw e tt
  | inr (c, t, s) ↦ rw s.started (
      read_digits-Leaves n (take_sign (c ∷ t)).0 (span is_digit (take_sign (c ∷ t)).1) (
        le_lt_trans (length-span is_digit (take_sign (c ∷ t)).1)
          (omega (arith, h, s.fits, length-take_sign (c ∷ t)))))
]

-- Every round takes a byte at least.
read_line-Leaves : (n : ℕ) (input : Input) → length input.rest ≤ n → Leaves n (read_line input)
unfolding read_line
read_line-Leaves n input h =
    bind-Leaves n n (read_word input) _ (read_word-Leaves n input h) (λ user_name i1 h1.
      bind-Leaves n n (read_word i1) _ (read_word-Leaves n i1 (omega (arith, h1)))
        (λ password i2 h2.
          bind-Leaves n n (read_u32 i2) _ (read_u32-Leaves n i2 h2) (λ user_id i3 h3.
            bind-Leaves n n (read_u32 i3) _ (read_u32-Leaves n i3 h3) (λ elo i4 h4. h4))))

line_cases :
    (n : ℕ) (e : Extracted Line)
    → Leaves n e
    → ((eof : Bool) × (e ≡ failed eof))
      ⊎ ((l : Line) × (rest : Input) × (e ≡ extracted l rest) × (length rest.rest < n))
line_cases n (failed eof) h = inl (eof, refl)
line_cases n (extracted l rest) h = inr (l, rest, refl, h)

load_loop-returns :
    (fuel : ℕ) (input : Input) (l : Loaded)
    → length input.rest < fuel
    → (result : Option Loaded) × (load_loop fuel input l ≡ some result)
unfolding load_loop
load_loop-returns zero input l h = absurd (omega arith)
load_loop-returns (suc n) input l h =
    elim (line_cases n (read_line input) (read_line-Leaves n input (omega (arith, h)))) [
      | inl (eof, e) ↦ (at_end eof l, rw (e, load_loop) refl)
      | inr (line, rest, e, less) ↦ elim (Option-cases (load_line line l)) [
        | inl refused ↦ (none, rw (e, load_loop) (rw refused refl))
        | inr (l', loaded) ↦
            let (result, e') = load_loop-returns n rest l' (omega (arith, less)) in
            (result, rw (e, load_loop) (rw loaded e'))
      ]
    ]

-- A result of `load` on `repo`.
abbrev pub IsLoaded : AccountRepository → AccountRepository × Bool → Type 0
IsLoaded repo (after, loaded) = (after.disk ≡ repo.disk) × (loaded ≡ false → after ≡ repo)

finish_load-IsLoaded :
    (repo : AccountRepository) (result : Option Loaded) → IsLoaded repo (finish_load repo result)
unfolding finish_load
finish_load-IsLoaded repo none = (refl, λ e. refl)
finish_load-IsLoaded repo (some l) = (refl, λ e. cc)

-- `load` has a result on every file and whatever the operating system does, with one round of fuel
-- more than the file has bytes; it leaves the file alone, and where it fails the repository is as
-- it was.
pub load-returns :
    (outcome : LoadOutcome) (repo : AccountRepository)
    → (result : AccountRepository × Bool) × (load outcome repo ≡ some result) × IsLoaded repo result
unfolding load
load-returns outcome repo = elim (Option-cases repo.disk.accounts_file) [
  | inl missing ↦ ((repo, outcome.looks), ground (arith, missing), (refl, λ e. refl))
  | inr (bytes, there) ↦ elim (Bool-cases outcome.opens) [
    | inl opens ↦
        let (result, e) =
          load_loop-returns (length bytes + 1) (record { rest = bytes; eof = false }) none_loaded
            (omega arith) in
        (finish_load repo result, ground (arith, there, opens, e), finish_load-IsLoaded repo result)
    | inr shut ↦ ((repo, false), ground (arith, there, shut), (refl, λ e. refl))
  ]
]
