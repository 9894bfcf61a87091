-- ===== src/Game/Account/Load.antt =====
-- server/game/AccountRepository.cc: `load`, which reads the accounts file through a `std::ifstream`.
pub mod Tokens
pub mod Records
pub mod Restart
pub mod Reload
pub mod Ending
use arena_game.Prelude.{
  ℕ, zero, suc, ◌+◌, ◌-◌, ◌*◌, ◌%◌, ◌^◌, Bool, true, false, not, ◌&&◌, ◌||◌, Option, none, some,
  List, [], ◌∷◌, ◌==◌, nat_eq, bytes_eq, ltb, leb, length, if◌then◌else◌,
}
use arena_game.Prelude.Map.{Map, lookup, emplace}
use arena_game.Wire.Stream.{Bytes}
use arena_game.Game.Account.{
  AccountRecord, AccountRepository, is_space, is_valid_input, max_user_id,
}

-- A stream that has not failed: what is left of the file, and `eofbit`.
pub record Input : Type 0 where
  pub rest : Bytes
  pub eof : Bool

-- What `>>` does to such a stream. On failure only `eofbit` is looked at afterwards.
pub data Extracted (A : Type 0) : Type 0 where
  failed : Bool → Extracted A
  extracted : A → Input → Extracted A

infixl 5 ◌>>=◌
abbrev pub ◌>>=◌ : {A B : Type 0} → Extracted A → (A → Input → Extracted B) → Extracted B
failed eof >>= f = failed eof
extracted a input >>= f = f a input

unfoldable pub skip_space : Bytes → Bytes
unfolding is_space
skip_space [] = []
skip_space (c ∷ s) = let rest = skip_space s in if is_space c then rest else c ∷ s

-- The longest start of the text that passes the test, and the rest.
unfoldable pub span : (ℕ → Bool) → Bytes → Bytes × Bytes
span p [] = ([], [])
span p (c ∷ s) = let (w, r) = span p s in if p c then (c ∷ w, r) else ([], c ∷ s)

abbrev pub is_empty : Bytes → Bool
is_empty [] = true
is_empty (c ∷ s) = false

-- The start of every `>>`: the stream must be good, and spaces are skipped.
unfoldable pub sentry : Input → Extracted Bytes
sentry input =
    if input.eof
    then failed true
    else elim (skip_space input.rest) [ [] ↦ failed true | c ∷ s ↦ extracted (c ∷ s) input ]

-- `input >> userName`
unfoldable pub read_word : Input → Extracted Bytes
unfolding is_space
read_word input = sentry input >>= λ text before.
    let (word, rest) = span (λ c. not (is_space c)) text in
    extracted word (record { rest = rest; eof = is_empty rest })

abbrev pub is_digit : ℕ → Bool
is_digit c = leb b'0' c && leb c b'9'

-- The number that digits spell behind `n`.
abbrev pub digits_value : ℕ → Bytes → ℕ
digits_value n [] = n
digits_value n (c ∷ s) = digits_value (n * 10 + (c - b'0')) s

-- A sign, and the text behind it.
abbrev pub take_sign : Bytes → Bool × Bytes
take_sign [] = (false, [])
take_sign (c ∷ s) =
    if c == b'-' then (true, s) else if c == b'+' then (false, s) else (false, c ∷ s)

-- `std::num_get` for a `uint32_t` in base 10: a negative number wraps, one that does not fit fails.
unfoldable pub read_digits : Bool → Bytes × Bytes → Extracted ℕ
read_digits negative ([], rest) = failed (is_empty rest)
read_digits negative (c ∷ s, rest) =
    let value = digits_value 0 (c ∷ s) in
    if ltb (2 ^ 32 - 1) value
    then failed (is_empty rest)
    else extracted (if negative then (2 ^ 32 - value) % 2 ^ 32 else value)
        (record { rest = rest; eof = is_empty rest })

-- `input >> userId`
unfoldable pub read_u32 : Input → Extracted ℕ
unfolding read_digits
read_u32 input = sentry input >>= λ text before.
    let (negative, digits) = take_sign text in read_digits negative (span is_digit digits)

-- `userName`, `password`, `userId` and `elo` as they are read.
pub record Line : Type 0 where
  pub user_name : Bytes
  pub password : Bytes
  pub user_id : ℕ
  pub elo : ℕ

-- The condition of the loop of `load`.
unfoldable pub read_line : Input → Extracted Line
read_line input = read_word input >>= λ user_name input. read_word input >>= λ password input.
    read_u32 input >>= λ user_id input. read_u32 input >>= λ elo input.
    extracted (record { user_name = user_name; password = password; user_id = user_id; elo = elo })
      input

abbrev pub record_of : Line → AccountRecord
record_of l = record {
  account = record { user_id = l.user_id; user_name = l.user_name; elo = l.elo };
  password = l.password;
}

-- `loadedAccounts` and `nextUserId`.
pub record Loaded : Type 0 where
  pub accounts : Map Bytes AccountRecord
  pub next_user_id : ℕ

abbrev pub raise_next : ℕ → ℕ → ℕ
raise_next user_id next =
    if user_id == max_user_id
    then 0
    else if not (next == 0) && leb next user_id
    then user_id + 1
    else next

-- The body of the loop of `load`; `none` is `return false`.
unfoldable pub load_line : Line → Loaded → Option Loaded
load_line l loaded =
    if not (is_valid_input l.user_name l.password) || l.user_id == 0
    then none
    else elim (lookup l.user_name loaded.accounts) [
      | some _ ↦ none
      | none ↦ some (record {
        accounts = emplace l.user_name (record_of l) loaded.accounts;
        next_user_id = raise_next l.user_id loaded.next_user_id;
      })
    ]

-- How the loop ends: `none` is `return false`.
abbrev pub at_end : Bool → Loaded → Option Loaded
at_end eof loaded = if not eof then none else some loaded

-- The loop of `load` with fuel; `none` means that the fuel ran out.
unfoldable pub load_loop : ℕ → Input → Loaded → Option (Option Loaded)
load_loop zero input loaded = none
load_loop (suc fuel) input loaded = elim (read_line input) [
  | failed eof ↦ some (at_end eof loaded)
  | extracted l rest ↦ elim (load_line l loaded) [
    | none ↦ some none
    | some loaded' ↦ load_loop fuel rest loaded'
  ]
]

-- What the operating system lets `load` do: open a file that is there, and look for one that is not.
pub record LoadOutcome : Type 0 where
  pub opens : Bool
  pub looks : Bool

unfoldable pub finish_load : AccountRepository → Option Loaded → AccountRepository × Bool
finish_load repo none = (repo, false)
finish_load repo (some loaded) =
    (record repo { accounts = loaded.accounts; next_user_id = loaded.next_user_id }, true)

abbrev pub none_loaded : Loaded
none_loaded = record { accounts = []; next_user_id = 1 }

-- Each round takes a word off the file at least. `none` means that the fuel ran out.
unfoldable pub load : LoadOutcome → AccountRepository → Option (AccountRepository × Bool)
unfolding load_loop finish_load
load outcome repo = elim repo.disk.accounts_file [
  | none ↦ some (repo, outcome.looks)
  | some bytes ↦
      if not outcome.opens
      then some (repo, false)
      else elim (load_loop (length bytes + 1) (record { rest = bytes; eof = false }) none_loaded) [
        | none ↦ none
        | some result ↦ some (finish_load repo result)
      ]
]
