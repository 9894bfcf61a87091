-- ===== src/Game/Account/Load/Tokens.antt =====
-- What `>>` of `load` in server/game/AccountRepository.cc reads back of what `save` writes.
use native.Mathlib.Nat.{pow-suc}
use arena_game.Prelude.{
  ℕ, zero, suc, ◌+◌, ◌/◌, ◌%◌, ◌^◌, ◌<◌, ◌≡◌, refl, ap, sym, ◌∙◌, Bool, true, false, not, [], ◌∷◌,
  ◌++◌, ◌==◌, nat_eq, arith, All, inl, inr, Bool-cases,
}
use arena_game.Wire.Stream.{Bytes}
use arena_game.Game.Account.{is_space, has_space, print_digits, print_u32}
use arena_game.Game.Account.Load.{
  Input, extracted, skip_space, span, sentry, read_word, is_digit, digits_value, take_sign,
  read_digits, read_u32,
}

-- Every byte passes the test.
abbrev pub Passes : (ℕ → Bool) → Bytes → Type 0
Passes p w = All (λ c. p c ≡ true) w

span-append :
    (p : ℕ → Bool) (w : Bytes) (c : ℕ) (r : Bytes)
    → Passes p w
    → p c ≡ false
    → span p (w ++ (c ∷ r)) ≡ (w, c ∷ r)
unfolding span
span-append p [] c r h stop = rw stop refl
span-append p (x ∷ w) c r (h, hs) stop = rw (h, span-append p w c r hs stop) refl

has_space-Passes : (w : Bytes) → has_space w ≡ false → Passes (λ c. not (is_space c)) w
unfolding has_space
has_space-Passes [] h = tt
has_space-Passes (c ∷ w) h = (ground (arith, h), has_space-Passes w (ground (arith, h)))

-- A stream that is good, and stands before `text` where spaces are skipped.
pub record Before (input : Input) (text : Bytes) : Type 0 where
  pub good : input.eof ≡ false
  pub next : skip_space input.rest ≡ text

pub word-Before :
    (c : ℕ) (w t : Bytes)
    → has_space (c ∷ w) ≡ false
    → Before (record { rest = (c ∷ w) ++ t; eof = false }) ((c ∷ w) ++ t)
unfolding has_space skip_space
word-Before c w t h = record { good = refl; next = ground (arith, h) }

pub space-Before :
    (c : ℕ) (t u : Bytes)
    → is_space c ≡ true
    → Before (record { rest = t; eof = false }) u
    → Before (record { rest = c ∷ t; eof = false }) u
unfolding skip_space
space-Before c t u h b = record { good = refl; next = rw h b.next }

sentry-Before :
    (input : Input) (c : ℕ) (t : Bytes)
    → Before input (c ∷ t)
    → sentry input ≡ extracted (c ∷ t) input
unfolding sentry
sentry-Before input c t b = ground (arith, b.good, b.next)

pub read_word-Before :
    (input : Input) (c : ℕ) (w : Bytes) (d : ℕ) (r : Bytes)
    → Before input ((c ∷ w) ++ (d ∷ r))
    → has_space (c ∷ w) ≡ false
    → is_space d ≡ true
    → read_word input ≡ extracted (c ∷ w) (record { rest = d ∷ r; eof = false })
unfolding read_word
read_word-Before input c w d r b h stop =
    let cut =
      span-append (λ c. not (is_space c)) (c ∷ w) d r (has_space-Passes (c ∷ w) h) (rw stop refl) in
    rw (sentry-Before input c (w ++ (d ∷ r)) b) (rw cut refl)

print_digits-Passes :
    (k n : ℕ) (tail : Bytes) → Passes is_digit tail → Passes is_digit (print_digits k n tail)
unfolding print_digits
print_digits-Passes zero n tail h = h
print_digits-Passes (suc k) n tail h = elim (Bool-cases (n / 10 == 0)) [
  | inl e ↦ rw e (ground arith, h)
  | inr e ↦ rw e (print_digits-Passes k (n / 10) ((b'0' + n % 10) ∷ tail) (ground arith, h))
]

-- The digits of a number spell it.
digits_value-print_digits :
    (k n : ℕ) (tail : Bytes)
    → n < 10 ^ k
    → digits_value 0 (print_digits k n tail) ≡ digits_value n tail
unfolding print_digits
digits_value-print_digits zero n tail h = ap (λ (m : ℕ). digits_value m tail) (omega arith)
digits_value-print_digits (suc k) n tail h = elim (Bool-cases (n / 10 == 0)) [
  | inl e ↦ rw e (ap (λ (m : ℕ). digits_value m tail) (ground (arith, e)))
  | inr e ↦ rw e (
      digits_value-print_digits k (n / 10) ((b'0' + n % 10) ∷ tail) (omega (arith, pow-suc 10 k))
      ∙ ap (λ (m : ℕ). digits_value m tail) (omega arith))
]

-- There is a first digit.
print_digits-cons :
    (k n : ℕ) (x : ℕ) (tail : Bytes)
    → Passes is_digit (x ∷ tail)
    → (c : ℕ) × (w : Bytes) × (print_digits k n (x ∷ tail) ≡ c ∷ w) × Passes is_digit (c ∷ w)
unfolding print_digits
print_digits-cons zero n x tail h = (x, tail, refl, h)
print_digits-cons (suc k) n x tail h = elim (Bool-cases (n / 10 == 0)) [
  | inl e ↦ rw e (b'0' + n % 10, x ∷ tail, refl, (ground arith, h))
  | inr e ↦ rw e (print_digits-cons k (n / 10) (b'0' + n % 10) (x ∷ tail) (ground arith, h))
]

pub record IsDecimal (n : ℕ) (text : Bytes) : Type 0 where
  pub first : ℕ
  pub others : Bytes
  pub shape : text ≡ first ∷ others
  pub digits : Passes is_digit (first ∷ others)
  pub spells : digits_value 0 text ≡ n

pub print_u32-IsDecimal : (n : ℕ) → n < 2 ^ 32 → IsDecimal n (print_u32 n)
unfolding print_u32 print_digits
print_u32-IsDecimal n h = elim (Bool-cases (n / 10 == 0)) [
  | inl e ↦ record {
    first = b'0' + n % 10;
    others = [];
    shape = rw e refl;
    digits = (ground arith, tt);
    spells = digits_value-print_digits 10 n [] (omega arith);
  }
  | inr e ↦
      let (c, w, shape, digits) =
        print_digits-cons 9 (n / 10) (b'0' + n % 10) [] (ground arith, tt) in
      record {
        first = c;
        others = w;
        shape = rw e shape;
        digits = digits;
        spells = digits_value-print_digits 10 n [] (omega arith);
      }
]

digit-not_space : (c : ℕ) → is_digit c ≡ true → is_space c ≡ false
unfolding is_space
digit-not_space c h = ground arith

space-not_digit : (c : ℕ) → is_space c ≡ true → is_digit c ≡ false
unfolding is_space
space-not_digit c h = ground arith

pub decimal-Before :
    (n : ℕ) (text t : Bytes)
    → IsDecimal n text
    → Before (record { rest = text ++ t; eof = false }) (text ++ t)
unfolding skip_space
decimal-Before n text t d = record {
  good = refl;
  next = rw d.shape (rw (digit-not_space d.first d.digits.0) refl);
}

pub read_u32-Before :
    (input : Input) (n : ℕ) (text : Bytes) (e : ℕ) (r : Bytes)
    → n < 2 ^ 32
    → IsDecimal n text
    → Before input (text ++ (e ∷ r))
    → is_space e ≡ true
    → read_u32 input ≡ extracted n (record { rest = e ∷ r; eof = false })
unfolding read_u32 read_digits
read_u32-Before input n text e r h d b stop =
    let at : Before input (d.first ∷ (d.others ++ (e ∷ r))) = rw d.shape at b in
    let cut : span is_digit (d.first ∷ (d.others ++ (e ∷ r))) ≡ (d.first ∷ d.others, e ∷ r) =
      span-append is_digit (d.first ∷ d.others) e r d.digits (space-not_digit e stop) in
    let no_sign : take_sign (d.first ∷ (d.others ++ (e ∷ r)))
        ≡ (false, d.first ∷ (d.others ++ (e ∷ r))) =
      ground (arith, d.digits.0) in
    let value : digits_value 0 (d.first ∷ d.others) ≡ n =
      ap (digits_value 0) (sym d.shape) ∙ d.spells in
    rw (sentry-Before input d.first (d.others ++ (e ∷ r)) at)
      (rw no_sign (rw cut (ground (arith, value, h))))
