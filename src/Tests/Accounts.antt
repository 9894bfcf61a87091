-- ===== src/Tests/Accounts.antt =====
-- The accounts of server/game/AccountRepository.cc at concrete inputs.
use arena_game.Prelude.{
  if◌then◌else◌, ◌==◌, none, bytes_eq, ◌≡◌, ◌≢◌, refl, true, Bool, none, some, arith,
}
use arena_game.Prelude.Map.{lookup, emplace}
use arena_game.Prelude.Text.{text}
use arena_game.Game.Account.{
  AccountRepository, ok, register, verify, update_elo_pair, is_valid_input, has_space, is_space,
  save, finish_register, new_record,
}
use arena_game.Game.Account.Safety.{
  IsAtomic, register-IsAtomic, RatesPair, update_elo_pair-RatesPair,
}
use arena_game.Game.Account.Logins.{refusal, IsValid, register-IsValid, verify-register}
use arena_game.Game.Account.Load.{load, LoadOutcome}
use arena_game.Game.Account.Load.Reload.{verify-load}
use arena_game.Game.Account.Load.Ending.{IsLoaded, load-returns}
use arena_game.Tests.Data.{lucky, unlucky, no_accounts}

no_accounts-IsValid : IsValid no_accounts
unfolding lookup
no_accounts-IsValid = record {
  unique_keys = tt;
  unique_ids = λ j k i e. cc;
  next_fits = omega arith;
  proper = λ k r e. cc;
}

abbrev repo : AccountRepository
repo = (register (text "alice") (text "secret") lucky no_accounts).0

repo-IsValid : IsValid repo
repo-IsValid = register-IsValid (text "alice") (text "secret") lucky no_accounts no_accounts-IsValid

abbrev both : AccountRepository
both = (register (text "bob") (text "hidden") lucky repo).0

both-IsValid : IsValid both
both-IsValid = register-IsValid (text "bob") (text "hidden") lucky repo repo-IsValid

register-IsAtomic_example : IsAtomic repo (register (text "bob") (text "hidden") unlucky repo)
register-IsAtomic_example = register-IsAtomic (text "bob") (text "hidden") unlucky repo

register-IsValid_example : IsValid (register (text "bob") (text "hidden") unlucky repo).0
register-IsValid_example = register-IsValid (text "bob") (text "hidden") unlucky repo repo-IsValid

alice_registers : (register (text "alice") (text "secret") lucky no_accounts).1 ≡ ok
unfolding register is_valid_input has_space is_space save finish_register lookup emplace text
alice_registers = refl

two_names : text "alice" ≢ text "bob"
unfolding text
two_names e = ground arith

verify-register_example :
    (verify (text "alice") (text "secret") repo
      ≡ (ok, some (new_record 1 (text "alice") (text "secret")).account))
    × (verify (text "alice") (text "hidden") repo ≡ (
        if text "secret" == text "hidden"
        then (ok, some (new_record 1 (text "alice") (text "secret")).account)
        else (refusal (text "alice") (text "hidden"), none)))
    × (verify (text "bob") (text "hidden") repo ≡ verify (text "bob") (text "hidden") no_accounts)
    × ((register (text "alice") (text "hidden") lucky repo).1 ≢ ok)
verify-register_example =
    verify-register (text "alice") (text "secret") lucky no_accounts (text "bob") (text "hidden")
      alice_registers two_names

update_elo_pair-RatesPair_example :
    RatesPair 1 1025 2 975 both (update_elo_pair 1 1025 2 975 unlucky both)
update_elo_pair-RatesPair_example =
    update_elo_pair-RatesPair 1 1025 2 975 unlucky both both-IsValid.unique_keys
      both-IsValid.unique_ids

abbrev opened : LoadOutcome
opened = record { opens = true; looks = true }

-- A server that starts on the disk of `repo`.
abbrev started : AccountRepository
started = record no_accounts { disk = repo.disk }

verify-load_example :
    (new : AccountRepository) × (load opened started ≡ some (new, true))
    × IsValid new
    × (verify (text "alice") (text "secret") new
        ≡ (ok, some (new_record 1 (text "alice") (text "secret")).account))
    × (verify (text "alice") (text "hidden") new ≡ (
        if text "secret" == text "hidden"
        then (ok, some (new_record 1 (text "alice") (text "secret")).account)
        else (refusal (text "alice") (text "hidden"), none)))
    × (verify (text "bob") (text "hidden") new ≡ verify (text "bob") (text "hidden") no_accounts)
verify-load_example =
    verify-load (text "alice") (text "secret") (text "bob") (text "hidden") lucky opened no_accounts
      started no_accounts-IsValid alice_registers two_names refl refl

-- A file whose last record has no rating.
abbrev cut_short : AccountRepository
cut_short = record no_accounts {
  disk = record {
    accounts_file = some (text "alice secret 1 1000\nbob hidden 2");
    temp_file = none;
  };
}

load-returns_example :
    (result : AccountRepository × Bool) × (load opened cut_short ≡ some result)
    × IsLoaded cut_short result
load-returns_example = load-returns opened cut_short
