-- ===== src/Game/Account.antt =====
-- server/game/AccountRepository.h and AccountRepository.cc: the accounts and their file.
pub mod Safety
pub mod Logins
pub mod Load
use arena_game.Prelude.{
  ℕ, zero, suc, ◌+◌, ◌-◌, ◌/◌, ◌%◌, ◌^◌, Bool, true, false, not, ◌&&◌, ◌||◌, Option, none, some,
  List, [], ◌∷◌, ◌++◌, ◌==◌, nat_eq, bytes_eq, ltb, leb, length, if◌then◌else◌,
}
use arena_game.Prelude.Map.{Map, lookup, emplace, erase, adjust}
use arena_game.Wire.Stream.{Bytes}

pub record Account : Type 0 where
  pub user_id : ℕ
  pub user_name : Bytes
  pub elo : ℕ

pub data AccountResult : Type 0 where
  ok duplicate_user wrong_credentials invalid_input storage_error : AccountResult

pub record AccountRecord : Type 0 where
  pub account : Account
  pub password : Bytes

-- The file that `filePath_` names, and the one with `.tmp` behind its name.
pub record Disk : Type 0 where
  pub accounts_file : Option Bytes
  pub temp_file : Option Bytes

-- What the operating system lets `save` do.
pub record SaveOutcome : Type 0 where
  pub opens : Bool
  pub writes : Bool
  pub renames : Bool

pub record AccountRepository : Type 0 where
  pub next_user_id : ℕ
  pub accounts : Map Bytes AccountRecord
  pub disk : Disk

-- `std::isspace` in the C locale.
unfoldable pub is_space : ℕ → Bool
is_space ch = (leb 9 ch && leb ch 13) || ch == 32

-- The loops over the characters of a name or a password.
unfoldable pub has_space : Bytes → Bool
unfolding is_space
has_space [] = false
has_space (ch ∷ rest) = is_space ch || has_space rest

unfoldable pub is_valid_input : Bytes → Bytes → Bool
unfolding has_space
is_valid_input user_name password =
    if length user_name == 0
      || ltb 32 (length user_name)
      || length password == 0
      || ltb 128 (length password)
    then false
    else (if has_space user_name then false else not (has_space password))

-- `output << n` for a number below 10 ^ digits: its decimal digits in front of `tail`.
unfoldable pub print_digits : ℕ → ℕ → Bytes → Bytes
print_digits zero n tail = tail
print_digits (suc digits) n tail =
    let text = (b'0' + n % 10) ∷ tail in
    let more = print_digits digits (n / 10) text in if n / 10 == 0 then text else more

-- A `uint32_t` has ten digits at most.
unfoldable pub print_u32 : ℕ → Bytes
unfolding print_digits
print_u32 n = print_digits 10 n []

unfoldable pub print_record : AccountRecord → Bytes
unfolding print_u32
print_record r =
    r.account.user_name
    ++ (b' '
        ∷ (r.password
            ++ (b' '
                ∷ (print_u32 r.account.user_id
                    ++ (b' ' ∷ (print_u32 r.account.elo ++ (b'\n' ∷ [])))))))

unfoldable pub print_accounts : Map Bytes AccountRecord → Bytes
unfolding print_record
print_accounts [] = []
print_accounts ((k, r) ∷ m) = print_record r ++ print_accounts m

unfoldable pub save : SaveOutcome → AccountRepository → AccountRepository × Bool
save outcome repo =
    if not outcome.opens
    then (repo, false)
    else (if not outcome.writes
        then (record repo { disk = record repo.disk { temp_file = none } }, false)
        else (if not outcome.renames
            then (record repo { disk = record repo.disk { temp_file = none } }, false)
            else (
              record repo {
                disk = record {
                  accounts_file = some (print_accounts repo.accounts);
                  temp_file = none;
                };
              },
              true,
            )))

-- `std::numeric_limits<uint32_t>::max()`
abbrev pub max_user_id : ℕ
max_user_id = 2 ^ 32 - 1

abbrev pub new_record : ℕ → Bytes → Bytes → AccountRecord
new_record user_id user_name password = record {
  account = record { user_id = user_id; user_name = user_name; elo = 1000 };
  password = password;
}

-- The end of `Register`, after the record is in the map.
unfoldable pub finish_register :
    Bytes → Account → AccountRepository × Bool → AccountRepository × AccountResult × Option Account
finish_register user_name account (repo, saved) =
    if not saved
    then (record repo { accounts = erase user_name repo.accounts }, storage_error, none)
    else (
      record repo {
        next_user_id = if repo.next_user_id == max_user_id then 0 else repo.next_user_id + 1;
      },
      ok,
      some account,
    )

unfoldable pub register :
    Bytes
    → Bytes
    → SaveOutcome
    → AccountRepository
    → AccountRepository × AccountResult × Option Account
unfolding finish_register save
register user_name password outcome repo =
    if not (is_valid_input user_name password)
    then (repo, invalid_input, none)
    else elim (lookup user_name repo.accounts) [
      | some _ ↦ (repo, duplicate_user, none)
      | none ↦
          if repo.next_user_id == 0
          then (repo, storage_error, none)
          else finish_register user_name (new_record repo.next_user_id user_name password).account (
              save outcome (record repo {
                accounts =
                    emplace user_name (new_record repo.next_user_id user_name password)
                      repo.accounts;
              }))
    ]

unfoldable pub verify : Bytes → Bytes → AccountRepository → AccountResult × Option Account
verify user_name password repo =
    if not (is_valid_input user_name password)
    then (invalid_input, none)
    else elim (lookup user_name repo.accounts) [
      | none ↦ (wrong_credentials, none)
      | some r ↦
          if not (r.password == password) then (wrong_credentials, none) else (ok, some r.account)
    ]

-- The loop of `updateEloPair`: the names of the last accounts with the two numbers.
unfoldable pub find_pair :
    ℕ → ℕ → Map Bytes AccountRecord → Option Bytes × Option Bytes → Option Bytes × Option Bytes
find_pair first_id second_id [] found = found
find_pair first_id second_id ((k, r) ∷ m) (first, second) = find_pair first_id second_id m (
    if r.account.user_id == first_id
    then (some k, second)
    else (if r.account.user_id == second_id then (first, some k) else (first, second)))

abbrev pub set_elo : ℕ → AccountRecord → AccountRecord
set_elo elo r = record r { account = record r.account { elo = elo } }

-- The elo that a found record had.
abbrev pub elo_of : Bytes → Map Bytes AccountRecord → ℕ
elo_of k m = elim (lookup k m) [ none ↦ 0 | some r ↦ r.account.elo ]

-- The end of `updateEloPair`: on a failed save the old ratings come back.
unfoldable pub finish_update :
    Bytes → ℕ → Bytes → ℕ → AccountRepository × Bool → AccountRepository × Bool
finish_update first old_first second old_second (repo, saved) = if saved then (repo, true) else (
  record repo {
    accounts = adjust second (set_elo old_second) (adjust first (set_elo old_first) repo.accounts);
  },
  false,
)

unfoldable pub update_records :
    ℕ → ℕ → SaveOutcome → AccountRepository → Option Bytes × Option Bytes → AccountRepository × Bool
update_records first_elo second_elo outcome repo (none, second) = (repo, false)
update_records first_elo second_elo outcome repo (some first, none) = (repo, false)
update_records first_elo second_elo outcome repo (some first, some second) =
    finish_update first (elo_of first repo.accounts) second (elo_of second repo.accounts) (
      save outcome (record repo {
        accounts =
            adjust second (set_elo second_elo) (adjust first (set_elo first_elo) repo.accounts);
      }))

unfoldable pub update_elo_pair :
    ℕ → ℕ → ℕ → ℕ → SaveOutcome → AccountRepository → AccountRepository × Bool
update_elo_pair first_id first_elo second_id second_elo outcome repo =
    if first_id == 0 || second_id == 0 || first_id == second_id
    then (repo, false)
    else update_records first_elo second_elo outcome repo
        (find_pair first_id second_id repo.accounts (none, none))
