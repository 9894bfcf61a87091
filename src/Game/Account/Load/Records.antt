-- ===== src/Game/Account/Load/Records.antt =====
-- The lines of the accounts file: `load` of server/game/AccountRepository.cc reads the record that
-- `save` wrote.
use arena_game.Prelude.{
  ℕ, ◌^◌, ◌<◌, ◌≡◌, ◌≢◌, refl, sym, true, false, [], ◌∷◌, ◌++◌, nat_eq, length, arith, append_assoc,
  subst,
}
use arena_game.Wire.Stream.{Bytes}
use arena_game.Game.Account.{
  AccountRecord, is_space, has_space, is_valid_input, print_u32, print_record,
}
use arena_game.Game.Account.Load.{Input, extracted, read_word, read_line, Line}
use arena_game.Game.Account.Load.Tokens.{
  Before, word-Before, space-Before, read_word-Before, print_u32-IsDecimal, decimal-Before,
  read_u32-Before,
}

-- What is checked before a record comes into the map, and the widths of its numbers.
pub record IsPrintable (r : AccountRecord) : Type 0 where
  pub checked : is_valid_input r.account.user_name r.password ≡ true
  pub given : 0 < r.account.user_id
  pub user_id_fits : r.account.user_id < 2 ^ 32
  pub elo_fits : r.account.elo < 2 ^ 32

abbrev pub line_of : AccountRecord → Line
line_of r = record {
  user_name = r.account.user_name;
  password = r.password;
  user_id = r.account.user_id;
  elo = r.account.elo;
}

-- A text without spaces that is not empty.
pub record IsWord (w : Bytes) : Type 0 where
  pub first : ℕ
  pub others : Bytes
  pub shape : w ≡ first ∷ others
  pub solid : has_space w ≡ false

cons-IsWord : (w : Bytes) → length w ≢ 0 → has_space w ≡ false → IsWord w
cons-IsWord [] h s = absurd (h refl)
cons-IsWord (c ∷ w) h s = record { first = c; others = w; shape = refl; solid = s }

valid-IsWord :
    (name password : Bytes) → is_valid_input name password ≡ true → IsWord name × IsWord password
unfolding is_valid_input
valid-IsWord name password h = (
  cons-IsWord name (ground (arith, h)) (ground (arith, h)),
  cons-IsWord password (ground (arith, h)) (ground (arith, h)),
)

space : (is_space b' ' ≡ true) × (is_space b'\n' ≡ true)
unfolding is_space
space = (refl, refl)

-- One token, and a space before the next.
read_word-IsWord :
    (input : Input) (w : Bytes) (d : ℕ) (r : Bytes)
    → IsWord w
    → Before input (w ++ (d ∷ r))
    → is_space d ≡ true
    → read_word input ≡ extracted w (record { rest = d ∷ r; eof = false })
read_word-IsWord input w d r i b stop =
    subst
      (λ z.
        has_space z ≡ false
        → Before input (z ++ (d ∷ r))
        → read_word input ≡ extracted z (record { rest = d ∷ r; eof = false }))
      (sym i.shape) (λ s b'. read_word-Before input i.first i.others d r b' s stop) i.solid b

word-IsWord : (w t : Bytes) → IsWord w → Before (record { rest = w ++ t; eof = false }) (w ++ t)
word-IsWord w t i =
    subst (λ z. has_space z ≡ false → Before (record { rest = z ++ t; eof = false }) (z ++ t))
      (sym i.shape) (λ s. word-Before i.first i.others t s) i.solid

module _ (r : AccountRecord) (p : IsPrintable r) (tail : Bytes) where
  abbrev elo_text : Bytes
  elo_text = print_u32 r.account.elo ++ (b'\n' ∷ tail)

  abbrev id_text : Bytes
  id_text = print_u32 r.account.user_id ++ (b' ' ∷ elo_text)

  abbrev password_text : Bytes
  password_text = r.password ++ (b' ' ∷ id_text)

  shape_lem : print_record r ++ tail ≡ r.account.user_name ++ (b' ' ∷ password_text)
  unfolding print_record
  shape_lem = simp append_assoc refl

  pub print_record-Before :
      Before (record { rest = print_record r ++ tail; eof = false }) (print_record r ++ tail)
  print_record-Before =
      subst (λ z. Before (record { rest = z; eof = false }) z) (sym shape_lem)
        (word-IsWord r.account.user_name (b' ' ∷ password_text)
          (valid-IsWord r.account.user_name r.password p.checked).0)

  -- The record that was printed is read back, and its newline is left.
  pub read_line-print_record :
      (input : Input)
      → Before input (print_record r ++ tail)
      → read_line input ≡ extracted (line_of r) (record { rest = b'\n' ∷ tail; eof = false })
  unfolding read_line
  read_line-print_record input b =
      let (name, password) = valid-IsWord r.account.user_name r.password p.checked in
      let user_id = print_u32-IsDecimal r.account.user_id p.user_id_fits in
      let elo = print_u32-IsDecimal r.account.elo p.elo_fits in
      let one =
        read_word-IsWord input r.account.user_name b' ' password_text name
          (subst (Before input) shape_lem b) space.0 in
      let two =
        read_word-IsWord (record { rest = b' ' ∷ password_text; eof = false }) r.password b' '
          id_text password
          (space-Before b' ' password_text password_text space.0
            (word-IsWord r.password (b' ' ∷ id_text) password))
          space.0 in
      let three =
        read_u32-Before (record { rest = b' ' ∷ id_text; eof = false }) r.account.user_id
          (print_u32 r.account.user_id) b' ' elo_text p.user_id_fits user_id
          (space-Before b' ' id_text id_text space.0
            (decimal-Before r.account.user_id _ (b' ' ∷ elo_text) user_id))
          space.0 in
      let four =
        read_u32-Before (record { rest = b' ' ∷ elo_text; eof = false }) r.account.elo
          (print_u32 r.account.elo) b'\n' tail p.elo_fits elo
          (space-Before b' ' elo_text elo_text space.0
            (decimal-Before r.account.elo _ (b'\n' ∷ tail) elo))
          space.1 in
      rw one (rw two (rw three (rw four refl)))
