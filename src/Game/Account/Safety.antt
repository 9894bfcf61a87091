-- ===== src/Game/Account/Safety.antt =====
-- The accounts of server/game/AccountRepository.cc and their file never part.
use arena_game.Prelude.{
  ℕ, ◌≡◌, ◌≢◌, ◌⊎◌, refl, Bool, Option, none, some, true, false, arith, if◌then◌else◌, inl, inr,
  Option-cases, Bool-cases, ◌==◌, nat_eq, bytes_eq, bytes_beq_iff, ap, ◌∙◌, beq_ne, sym, [], ◌∷◌,
  ◌||◌,
}
use arena_game.Prelude.Map.{
  Map, lookup, adjust, lookup-adjust, erase-emplace_absent, adjust-adjust_undo, adjust-adjust_comm,
}
use mathlib.Core.Option
use arena_game.Wire.Stream.{Bytes}
use arena_game.Game.Account.{
  Account, AccountRecord, AccountRepository, AccountResult, ok, duplicate_user, wrong_credentials,
  invalid_input, storage_error, SaveOutcome, print_accounts, save, register, find_pair,
  update_records, finish_update, update_elo_pair, set_elo, new_record,
}

-- The file on disk is the accounts, printed.
abbrev pub IsSynced : AccountRepository → Type 0
IsSynced repo = repo.disk.accounts_file ≡ some (print_accounts repo.accounts)

-- Two repositories with the same accounts, the same next number and the same accounts file.
pub record SameAccounts (r s : AccountRepository) : Type 0 where
  pub same_next : r.next_user_id ≡ s.next_user_id
  pub same_accounts : r.accounts ≡ s.accounts
  pub same_file : r.disk.accounts_file ≡ s.disk.accounts_file

-- A registration that fails changes nothing; one that succeeds writes the file.
pub register-outcomes :
    (user_name password : Bytes) (outcome : SaveOutcome) (repo : AccountRepository)
    → let (after, result, _) = register user_name password outcome repo in
      (result ≢ ok → SameAccounts after repo) × (result ≡ ok → IsSynced after)
unfolding register
register-outcomes user_name password outcome repo =
    elim (Option-cases (lookup user_name repo.accounts)) [
      | inl free ↦ (
        λ h. ground (
          arith,
          free,
          h,
          erase-emplace_absent user_name (new_record repo.next_user_id user_name password)
              repo.accounts free,
        ),
        λ h. ground (arith, free, h),
      )
      | inr (r, taken) ↦ (λ h. ground (arith, taken, h), λ h. ground (arith, taken, h))
    ]

-- What has happened by the result of a registration.
abbrev pub IsAtomic :
    AccountRepository → AccountRepository × AccountResult × Option Account → Type 0
IsAtomic repo (after, ok, account) = IsSynced after
IsAtomic repo (after, duplicate_user, account) = SameAccounts after repo
IsAtomic repo (after, wrong_credentials, account) = SameAccounts after repo
IsAtomic repo (after, invalid_input, account) = SameAccounts after repo
IsAtomic repo (after, storage_error, account) = SameAccounts after repo

is_atomic :
    (repo : AccountRepository) (r : AccountRepository × AccountResult × Option Account)
    → (r.1 ≢ ok → SameAccounts r.0 repo) × (r.1 ≡ ok → IsSynced r.0)
    → IsAtomic repo r
is_atomic repo (after, ok, account) (same, synced) = synced refl
is_atomic repo (after, duplicate_user, account) (same, synced) = same (λ e. cc)
is_atomic repo (after, wrong_credentials, account) (same, synced) = same (λ e. cc)
is_atomic repo (after, invalid_input, account) (same, synced) = same (λ e. cc)
is_atomic repo (after, storage_error, account) (same, synced) = same (λ e. cc)

-- A registration is atomic: where the result is `ok` the accounts file holds the accounts, printed,
-- and with any other result the accounts, the next number and the accounts file are as they were.
pub register-IsAtomic :
    (user_name password : Bytes) (outcome : SaveOutcome) (repo : AccountRepository)
    → IsAtomic repo (register user_name password outcome repo)
register-IsAtomic user_name password outcome repo =
    is_atomic repo (register user_name password outcome repo)
      (register-outcomes user_name password outcome repo)

-- The number of the account of that name.
abbrev pub id_of : Bytes → Map Bytes AccountRecord → Option ℕ
id_of k m = Option.map (λ r. r.account.user_id) (lookup k m)

abbrev pub HasUniqueKeys : Map Bytes AccountRecord → Type 0
HasUniqueKeys [] = Unit {0}
HasUniqueKeys ((k, r) ∷ m) = (lookup k m ≡ none) × HasUniqueKeys m

-- What the loop of `updateEloPair` finds has the number that it looks for.
found_first :
    (a b : ℕ) (m : Map Bytes AccountRecord) (x y : Option Bytes) (k : Bytes)
    → HasUniqueKeys m
    → (find_pair a b m (x, y)).0 ≡ some k
    → (x ≡ some k) ⊎ (id_of k m ≡ some a)
unfolding find_pair lookup
found_first a b [] x y k u e = inl e
found_first a b ((j, r) ∷ m) x y k u e = ground (
  arith,
  bytes_beq_iff j k,
  found_first a b m (some j) y k u.1,
  found_first a b m x (some j) k u.1,
  found_first a b m x y k u.1,
)

found_second :
    (a b : ℕ) (m : Map Bytes AccountRecord) (x y : Option Bytes) (k : Bytes)
    → HasUniqueKeys m
    → (find_pair a b m (x, y)).1 ≡ some k
    → (y ≡ some k) ⊎ (id_of k m ≡ some b)
unfolding find_pair lookup
found_second a b [] x y k u e = inl e
found_second a b ((j, r) ∷ m) x y k u e = ground (
  arith,
  bytes_beq_iff j k,
  found_second a b m (some j) y k u.1,
  found_second a b m x (some j) k u.1,
  found_second a b m x y k u.1,
)

-- The old ratings, written back over the new ones.
restored :
    (f s : Bytes) (x y : ℕ) (m : Map Bytes AccountRecord) (p q : AccountRecord)
    → lookup f m ≡ some p
    → lookup s m ≡ some q
    → f ≢ s
    → adjust s
        (set_elo q.account.elo)
        (adjust f (set_elo p.account.elo) (adjust s (set_elo y) (adjust f (set_elo x) m)))
      ≡ m
restored f s x y m p q hf hs d =
    ap (adjust s (set_elo q.account.elo)) (
      ap (adjust f (set_elo p.account.elo))
        (adjust-adjust_comm s f (set_elo y) (set_elo x) m (beq_ne s f (λ e. d (sym e))))
      ∙ adjust-adjust_undo f (set_elo x) (set_elo p.account.elo) (adjust s (set_elo y) m) p
          (lookup-adjust s f (set_elo y) m ∙ rw (beq_ne s f (λ e. d (sym e))) hf) refl)
    ∙ adjust-adjust_undo s (set_elo y) (set_elo q.account.elo) m q hs refl

-- The ratings of the two accounts, given anew.
abbrev pub rated : ℕ → ℕ → ℕ → ℕ → AccountRecord → AccountRecord
rated a x b y r =
    if r.account.user_id == a
    then set_elo x r
    else (if r.account.user_id == b then set_elo y r else r)

abbrev pub HasUniqueIds : Map Bytes AccountRecord → Type 0
HasUniqueIds m = (j k : Bytes) (i : ℕ) → id_of j m ≡ some i → id_of k m ≡ some i → j ≡ k

update_records-found :
    (a x b y : ℕ) (outcome : SaveOutcome) (repo : AccountRepository) (f s : Bytes)
    → a ≢ b
    → id_of f repo.accounts ≡ some a
    → id_of s repo.accounts ≡ some b
    → let (after, done) = update_records x y outcome repo (some f, some s) in
      (done ≡ false → SameAccounts after repo)
      × (done ≡ true
          → IsSynced after
            × (after.accounts ≡ adjust s (set_elo y) (adjust f (set_elo x) repo.accounts)))
unfolding update_records finish_update save
update_records-found a x b y outcome repo f s d hf hs =
    elim (Option-cases (lookup f repo.accounts)) [
      | inl e ↦ absurd (ground (arith, e, hf))
      | inr (p, ep) ↦ elim (Option-cases (lookup s repo.accounts)) [
        | inl e ↦ absurd (ground (arith, e, hs))
        | inr (q, eq) ↦
            let apart : f ≢ s = λ e. ground (arith, ap (λ (k : Bytes). lookup k repo.accounts) e) in
            let back = restored f s x y repo.accounts p q ep eq apart in
            (λ h. ground (arith, ep, eq, back), λ h. ground (arith, ep, eq))
      ]
    ]

lookup-rated :
    (a x b y : ℕ) (m : Map Bytes AccountRecord) (f s k : Bytes)
    → a ≢ b
    → HasUniqueIds m
    → id_of f m ≡ some a
    → id_of s m ≡ some b
    → lookup k (adjust s (set_elo y) (adjust f (set_elo x) m))
      ≡ Option.map (rated a x b y) (lookup k m)
lookup-rated a x b y m f s k d u hf hs = ground (
  arith,
  bytes_beq_iff f k,
  bytes_beq_iff s k,
  u f k a hf,
  u s k b hs,
  lookup-adjust s k (set_elo y) (adjust f (set_elo x) m),
  lookup-adjust f k (set_elo x) m,
  ap (λ (j : Bytes). lookup j m),
)

-- Both numbers are those of accounts.
pub record HasBoth (a b : ℕ) (m : Map Bytes AccountRecord) : Type 0 where
  pub first_name : Bytes
  pub second_name : Bytes
  pub first_exists : id_of first_name m ≡ some a
  pub second_exists : id_of second_name m ≡ some b

-- The pair is rated in the accounts and in the file, or nothing has changed.
abbrev pub RatesPair : ℕ → ℕ → ℕ → ℕ → AccountRepository → AccountRepository × Bool → Type 0
RatesPair a x b y repo (after, done) =
    if done
    then HasBoth a b repo.accounts
      × IsSynced after
      × ((k : Bytes)
          → lookup k after.accounts ≡ Option.map (rated a x b y) (lookup k repo.accounts))
    else SameAccounts after repo

by_outcome : (b : Bool) {P Q : Type 0} → (b ≡ false → P) → (b ≡ true → Q) → if b then Q else P
by_outcome true p q = q refl
by_outcome false p q = p refl

refused-RatesPair : (a x b y : ℕ) (repo : AccountRepository) → RatesPair a x b y repo (repo, false)
refused-RatesPair a x b y repo = record { same_next = refl; same_accounts = refl; same_file = refl }

update_records-RatesPair :
    (a x b y : ℕ) (outcome : SaveOutcome) (repo : AccountRepository)
    (found : Option Bytes × Option Bytes)
    → a ≢ b
    → HasUniqueIds repo.accounts
    → ((k : Bytes) → found.0 ≡ some k → id_of k repo.accounts ≡ some a)
    → ((k : Bytes) → found.1 ≡ some k → id_of k repo.accounts ≡ some b)
    → RatesPair a x b y repo (update_records x y outcome repo found)
update_records-RatesPair a x b y outcome repo (none, s) d ids hf hs =
    unfold update_records in refused-RatesPair a x b y repo
update_records-RatesPair a x b y outcome repo (some f, none) d ids hf hs =
    unfold update_records in refused-RatesPair a x b y repo
update_records-RatesPair a x b y outcome repo (some f, some s) d ids hf hs =
    let (failed, saved) = update_records-found a x b y outcome repo f s d (hf f refl) (hs s refl) in
    by_outcome _ failed (λ h.
      let (synced, e) = saved h in
      (
        record {
          first_name = f;
          second_name = s;
          first_exists = hf f refl;
          second_exists = hs s refl;
        },
        synced,
        λ k.
            ap (lookup k) e
            ∙ lookup-rated a x b y repo.accounts f s k d ids (hf f refl) (hs s refl),
      ))

none-ne-some : {A : Type 0} {B : Type 0} {a : A} → Path (Option A) none (some a) ⊎ B → B
none-ne-some (inl e) = cc
none-ne-some (inr b) = b

-- Where names and user numbers are used once, either `updateEloPair` returns true, both numbers
-- are those of accounts, it has rated both and no other, and the accounts file holds the accounts,
-- printed; or it returns false and the accounts, the next number and the accounts file are as they
-- were.
pub update_elo_pair-RatesPair :
    (a x b y : ℕ) (outcome : SaveOutcome) (repo : AccountRepository)
    → HasUniqueKeys repo.accounts
    → HasUniqueIds repo.accounts
    → RatesPair a x b y repo (update_elo_pair a x b y outcome repo)
unfolding update_elo_pair
update_elo_pair-RatesPair a x b y outcome repo keys ids =
    elim (Bool-cases (a == 0 || b == 0 || a == b)) [
      | inl t ↦ rw (t, update_elo_pair) (refused-RatesPair a x b y repo)
      | inr t ↦
          rw (t, update_elo_pair)
            (update_records-RatesPair a x b y outcome repo _ (ground (arith, t)) ids
              (λ k e. none-ne-some (found_first a b repo.accounts none none k keys e))
              (λ k e. none-ne-some (found_second a b repo.accounts none none k keys e)))
    ]
