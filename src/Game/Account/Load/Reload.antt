-- ===== src/Game/Account/Load/Reload.antt =====
-- A restart of the server: `load` of server/game/AccountRepository.cc after `save`.
use arena_game.Prelude.{
  ℕ, ◌+◌, ◌≤◌, ◌<◌, ◌≡◌, ◌≢◌, refl, ap, sym, ◌∙◌, true, false, ◌==◌, if◌then◌else◌, Option, none,
  some, [], ◌∷◌, ◌++◌, nat_eq, bytes_eq, length-append, length, arith,
}
use arena_game.Prelude.Map.{Map, lookup}
use arena_game.Wire.Stream.{Bytes}
use arena_game.Game.Account.{
  AccountRecord, AccountRepository, ok, print_accounts, print_record, print_u32, new_record, verify,
  register, SaveOutcome,
}
use arena_game.Game.Account.Safety.{id_of, IsSynced, register-outcomes}
use arena_game.Game.Account.Logins.{refusal, IsProper, IsValid, register-IsValid, verify-register}
use arena_game.Game.Account.Load.{none_loaded, load, LoadOutcome, finish_load}
use arena_game.Game.Account.Load.Restart.{
  IsWritable, IsNew, or_else, load_all, lookup-load_all, load_all-HasUniqueKeys, load_all-Covers,
  accounts-Before, load_loop-print_accounts,
}

-- What is known of the accounts is what `save` needs.
IsValid-IsWritable : (repo : AccountRepository) → IsValid repo → IsWritable repo.accounts
IsValid-IsWritable repo v = record {
  unique_keys = v.unique_keys;
  own_name = λ k r e. (v.proper k r e).own_name;
  printable = λ k r e.
      let p = v.proper k r e in
      record {
        checked = rw p.own_name p.checked;
        given = p.given;
        user_id_fits = ground (arith, p.fits);
        elo_fits = p.elo_fits;
      };
}

suc_le : {m n : ℕ} → m ≤ n → m < n + 1
suc_le h = omega arith

-- Every line takes a byte at least.
length-print_accounts : (m : Map Bytes AccountRecord) → length m ≤ length (print_accounts m)
unfolding print_accounts print_record
length-print_accounts [] = omega arith
length-print_accounts ((k, r) ∷ m) =
    let text =
      b' '
      ∷ (r.password
          ++ (b' '
              ∷ (print_u32 r.account.user_id
                  ++ (b' ' ∷ (print_u32 r.account.elo ++ (b'\n' ∷ [])))))) in
    ground (
      arith,
      length-append (print_record r) (print_accounts m),
      length-append r.account.user_name text,
      length-print_accounts m,
    )

-- A repository that answers as another does.
pub record IsReloaded (old new : AccountRepository) : Type 0 where
  pub valid : IsValid new
  pub same_lookup : (k : Bytes) → lookup k new.accounts ≡ lookup k old.accounts
  pub same_disk : new.disk ≡ old.disk

module _ (repo memory : AccountRepository) (v : IsValid repo) where
  abbrev reloaded : AccountRepository
  reloaded = record memory {
    accounts = (load_all repo.accounts none_loaded).accounts;
    next_user_id = (load_all repo.accounts none_loaded).next_user_id;
  }

  none-IsNew : IsNew repo.accounts none_loaded
  unfolding lookup
  none-IsNew j q e = refl

  reloaded-lookup : (k : Bytes) → lookup k reloaded.accounts ≡ lookup k repo.accounts
  unfolding lookup
  reloaded-lookup k =
      lookup-load_all repo.accounts none_loaded k (IsValid-IsWritable repo v) none-IsNew
      ∙ or_none (lookup k repo.accounts)
    where
      or_none : (o : Option AccountRecord) → or_else o none ≡ o
      or_none none = refl
      or_none (some r) = refl

  reloaded-IsProper :
      (k : Bytes) (r : AccountRecord)
      → lookup k reloaded.accounts ≡ some r
      → IsProper reloaded.next_user_id k r
  reloaded-IsProper k r e =
      let p = v.proper k r (sym (reloaded-lookup k) ∙ e) in
      let (top, keeps, all) =
        load_all-Covers repo.accounts none_loaded (IsValid-IsWritable repo v) (omega arith) in
      record {
        own_name = p.own_name;
        checked = p.checked;
        given = p.given;
        issued = all k r (sym (reloaded-lookup k) ∙ e);
        fits = p.fits;
        elo_fits = p.elo_fits;
      }

  same_ids : (k : Bytes) → id_of k reloaded.accounts ≡ id_of k repo.accounts
  same_ids k = rw (reloaded-lookup k) refl

  reloaded-IsValid : IsValid reloaded
  reloaded-IsValid = record {
    unique_keys =
        load_all-HasUniqueKeys repo.accounts none_loaded (IsValid-IsWritable repo v) none-IsNew tt;
    unique_ids = λ j k i a b. v.unique_ids j k i (sym (same_ids j) ∙ a) (sym (same_ids k) ∙ b);
    next_fits =
        (load_all-Covers repo.accounts none_loaded (IsValid-IsWritable repo v) (omega arith)).0;
    proper = reloaded-IsProper;
  }

  pub load-IsReloaded :
      (outcome : LoadOutcome)
      → outcome.opens ≡ true
      → IsSynced repo
      → memory.disk ≡ repo.disk
      → (new : AccountRepository) × (load outcome memory ≡ some (new, true)) × IsReloaded repo new
  unfolding load finish_load
  load-IsReloaded outcome opens synced same =
      let file : memory.disk.accounts_file ≡ some (print_accounts repo.accounts) =
        ap (λ d. d.accounts_file) same ∙ synced in
      let w = IsValid-IsWritable repo v in
      (
        reloaded,
        rw file (
            rw opens (
              rw
                (load_loop-print_accounts (length (print_accounts repo.accounts) + 1) repo.accounts
                  none_loaded (record { rest = print_accounts repo.accounts; eof = false })
                  (suc_le (length-print_accounts repo.accounts)) w none-IsNew
                  (accounts-Before repo.accounts w))
                refl)),
        record { valid = reloaded-IsValid; same_lookup = reloaded-lookup; same_disk = same },
      )

same_verify :
    (old new : AccountRepository) (name word : Bytes)
    → IsReloaded old new
    → verify name word new ≡ verify name word old
unfolding verify
same_verify old new name word r = ground (arith, r.same_lookup name)

-- Where the accounts are valid, after a registration that succeeds and a restart that can open the
-- file, they are valid again, the user can log in under the number that was next with the password
-- and with no other, and a login with another name has the answer that it had before the
-- registration.
pub verify-load :
    (user_name password name word : Bytes) (saves : SaveOutcome) (loads : LoadOutcome)
    (repo memory : AccountRepository)
    → IsValid repo
    → (register user_name password saves repo).1 ≡ ok
    → user_name ≢ name
    → loads.opens ≡ true
    → memory.disk ≡ (register user_name password saves repo).0.disk
    → (new : AccountRepository) × (load loads memory ≡ some (new, true))
      × IsValid new
      × (verify user_name password new
          ≡ (ok, some (new_record repo.next_user_id user_name password).account))
      × (verify user_name word new ≡ (
          if password == word
          then (ok, some (new_record repo.next_user_id user_name password).account)
          else (refusal user_name word, none)))
      × (verify name word new ≡ verify name word repo)
verify-load user_name password name word saves loads repo memory v done other opens same =
    let valid = register-IsValid user_name password saves repo v in
    let (new, e, r) =
      load-IsReloaded (register user_name password saves repo).0 memory valid loads opens
        ((register-outcomes user_name password saves repo).1 done) same in
    let (one, self, two, three) =
      verify-register user_name password saves repo name word done other in
    (
      new,
      e,
      r.valid,
      same_verify (register user_name password saves repo).0 new user_name password r ∙ one,
      same_verify (register user_name password saves repo).0 new user_name word r ∙ self,
      same_verify (register user_name password saves repo).0 new name word r ∙ two,
    )
