-- ===== src/Game/Account/Logins.antt =====
-- Who can log in to the accounts of server/game/AccountRepository.cc, and under which number.
use arena_game.Prelude.{
  ℕ, ◌+◌, ◌^◌, ◌<◌, ◌≤◌, ◌≡◌, ◌≢◌, ◌⊎◌, refl, none, some, true, arith, if◌then◌else◌, inl, inr,
  Option-cases, Bool-cases, ap, ◌==◌, nat_eq, bytes_eq, bytes_beq_iff, beq_ne, beq_refl, ◌∷◌,
}
use arena_game.Prelude.Map.{Map, lookup, emplace, lookup-emplace}
use arena_game.Wire.Stream.{Bytes}
use arena_game.Game.Account.{
  Account, AccountRecord, AccountRepository, AccountResult, ok, duplicate_user, wrong_credentials,
  invalid_input, storage_error, SaveOutcome, is_valid_input, register, verify, new_record,
  max_user_id,
}
use arena_game.Game.Account.Safety.{
  HasUniqueKeys, HasUniqueIds, id_of, SameAccounts, register-outcomes,
}

-- Names are the keys and were checked, numbers are in use once, not 0, and below the next one as
-- long as there is one.
pub record IsProper (next : ℕ) (k : Bytes) (r : AccountRecord) : Type 0 where
  pub own_name : r.account.user_name ≡ k
  pub checked : is_valid_input k r.password ≡ true
  pub given : 0 < r.account.user_id
  pub issued : next ≢ 0 → r.account.user_id < next
  pub fits : r.account.user_id ≤ max_user_id
  pub elo_fits : r.account.elo < 2 ^ 32

pub record IsValid (repo : AccountRepository) : Type 0 where
  pub unique_keys : HasUniqueKeys repo.accounts
  pub unique_ids : HasUniqueIds repo.accounts
  pub next_fits : repo.next_user_id ≤ max_user_id
  pub proper :
      (k : Bytes) (r : AccountRecord)
      → lookup k repo.accounts ≡ some r
      → IsProper repo.next_user_id k r

-- What `Verify` answers to a word that is not the password.
abbrev pub refusal : Bytes → Bytes → AccountResult
refusal user_name word = if is_valid_input user_name word then wrong_credentials else invalid_input

module _ (user_name password : Bytes) (outcome : SaveOutcome) (repo : AccountRepository) where
  abbrev after : AccountRepository
  after = (register user_name password outcome repo).0

  -- After a registration that succeeds the user can log in with the password, under the number
  -- that was next, and with no other password; a login with another name has the answer that it
  -- had, and the name cannot be registered again.
  pub verify-register :
      (name word : Bytes)
      → (register user_name password outcome repo).1 ≡ ok
      → user_name ≢ name
      → let account : Account = (new_record repo.next_user_id user_name password).account in
        (verify user_name password after ≡ (ok, some account))
        × (verify user_name word after
            ≡ (if password == word then (ok, some account) else (refusal user_name word, none)))
        × (verify name word after ≡ verify name word repo)
        × ((register user_name word outcome after).1 ≢ ok)
  unfolding register verify
  verify-register name word h d = elim (Option-cases (lookup user_name repo.accounts)) [
    | inl free ↦
        let at_self =
          lookup-emplace user_name user_name (new_record repo.next_user_id user_name password)
            repo.accounts free in
        let at_name =
          lookup-emplace user_name name (new_record repo.next_user_id user_name password)
            repo.accounts free in
        (
          ground (arith, h, free, at_self, beq_refl user_name, beq_refl password),
          elim (Bool-cases (password == word)) [
            | inl same ↦
                let alike : password ≡ word = (bytes_beq_iff password word).0 same in
                ground (
                  arith,
                  h,
                  free,
                  at_self,
                  beq_refl user_name,
                  same,
                  ap (λ (w : Bytes). is_valid_input user_name w) alike,
                )
            | inr apart ↦ ground (arith, h, free, at_self, beq_refl user_name, apart)
          ],
          ground (arith, h, free, at_name, beq_ne user_name name d),
          λ e. ground (arith, h, free, at_self, beq_refl user_name, e),
        )
    | inr (r, taken) ↦ absurd (ground (arith, h, taken))
  ]

  register-ok :
      (register user_name password outcome repo).1 ≡ ok
      → (lookup user_name repo.accounts ≡ none)
        × (is_valid_input user_name password ≡ true)
        × (repo.next_user_id ≢ 0)
        × (after.accounts
            ≡ (user_name, new_record repo.next_user_id user_name password) ∷ repo.accounts)
        × (after.next_user_id
            ≡ (if repo.next_user_id == max_user_id then 0 else repo.next_user_id + 1))
  unfolding register emplace
  register-ok h = elim (Option-cases (lookup user_name repo.accounts)) [
    | inl free ↦ (
      free,
      ground (arith, h, free),
      ground (arith, h, free),
      ground (arith, h, free),
      ground (arith, h, free),
    )
    | inr (r, taken) ↦ absurd (ground (arith, h, taken))
  ]

is_ok : (r : AccountResult) → (r ≡ ok) ⊎ (r ≢ ok)
is_ok ok = inl refl
is_ok duplicate_user = inr (λ e. cc)
is_ok wrong_credentials = inr (λ e. cc)
is_ok invalid_input = inr (λ e. cc)
is_ok storage_error = inr (λ e. cc)

-- Adding an account under the next number.
module _ (k word : Bytes) (next : ℕ) (m : Map Bytes AccountRecord) where
  abbrev added : Map Bytes AccountRecord
  added = (k, new_record next k word) ∷ m

  added-HasUniqueIds :
      HasUniqueIds m
      → lookup k m ≡ none
      → ((j : Bytes) (r : AccountRecord) → lookup j m ≡ some r → r.account.user_id < next)
      → HasUniqueIds added
  unfolding lookup
  added-HasUniqueIds u free below i j n hi hj =
      ground
        (arith, hi, hj, bytes_beq_iff k i, bytes_beq_iff k j, u i j n, id-below i n, id-below j n)
    where
      id-below : (j : Bytes) (n : ℕ) → id_of j m ≡ some n → n < next
      id-below j n e = elim (Option-cases (lookup j m)) [
        | inl g ↦ absurd (ground (arith, e, g))
        | inr (r, g) ↦ ground (arith, e, g, below j r g)
      ]

SameAccounts-IsValid : (r s : AccountRepository) → SameAccounts r s → IsValid s → IsValid r
SameAccounts-IsValid r s e v = record {
  unique_keys = rw e.same_accounts v.unique_keys;
  unique_ids = rw e.same_accounts v.unique_ids;
  next_fits = rw e.same_next v.next_fits;
  proper = rw (e.same_accounts, e.same_next) v.proper;
}

module _ (k word : Bytes) (outcome : SaveOutcome) (repo : AccountRepository)
    (v : IsValid repo) where
  added-IsProper :
      is_valid_input k word ≡ true
      → repo.next_user_id ≢ 0
      → (j : Bytes) (r : AccountRecord)
      → lookup j (added k word repo.next_user_id repo.accounts) ≡ some r
      → IsProper (if repo.next_user_id == max_user_id then 0 else repo.next_user_id + 1) j r
  unfolding lookup
  added-IsProper input n j r e =
      ground (arith, input, n, e, bytes_beq_iff k j, v.next_fits, v.proper j r)

  -- Where the accounts are valid, they still are after a registration, whatever its outcome: names
  -- and numbers are used once, the numbers fit 32 bits and are not 0, and while there is a next
  -- number all are below it.
  pub register-IsValid : IsValid (register k word outcome repo).0
  register-IsValid = elim (is_ok (register k word outcome repo).1) [
    | inr failed ↦ SameAccounts-IsValid _ repo ((register-outcomes k word outcome repo).0 failed) v
    | inl done ↦
        let (free, input, n, e, e') = register-ok k word outcome repo done in
        record {
          unique_keys = rw e (free, v.unique_keys);
          unique_ids = rw e (
              added-HasUniqueIds k word repo.next_user_id repo.accounts v.unique_ids free
                (λ j r g. (v.proper j r g).issued n));
          next_fits = rw e' (ground (arith, v.next_fits));
          proper = rw (e, e') (added-IsProper input n);
        }
  ]
