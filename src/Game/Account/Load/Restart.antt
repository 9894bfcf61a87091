-- ===== src/Game/Account/Load/Restart.antt =====
-- The loop of `load` of server/game/AccountRepository.cc, run on what `save` wrote.
use arena_game.Prelude.{
  ℕ, zero, suc, ◌^◌, ◌≤◌, ◌<◌, ◌≡◌, ◌≢◌, refl, true, false, Option, none, some, [], ◌∷◌, nat_eq,
  bytes_eq, bytes_beq_iff, beq_refl, length, arith,
}
use arena_game.Prelude.Map.{Map, lookup, emplace}
use arena_game.Wire.Stream.{Bytes}
use arena_game.Game.Account.{AccountRecord, is_space, max_user_id, print_accounts}
use arena_game.Game.Account.Safety.{HasUniqueKeys}
use arena_game.Game.Account.Load.{
  Input, failed, sentry, read_word, read_line, Loaded, raise_next, load_line, load_loop, skip_space,
}
use arena_game.Game.Account.Load.Tokens.{Before, space-Before}
use arena_game.Game.Account.Load.Records.{
  IsPrintable, line_of, print_record-Before, read_line-print_record,
}

abbrev pub next_of : AccountRecord → Loaded → Loaded
next_of r l = record {
  accounts = (r.account.user_name, r) ∷ l.accounts;
  next_user_id = raise_next r.account.user_id l.next_user_id;
}

-- What `load` makes of printed accounts.
abbrev pub load_all : Map Bytes AccountRecord → Loaded → Loaded
load_all [] l = l
load_all ((k, r) ∷ m) l = load_all m (next_of r l)

-- Every name stands once, under itself, and what stands there can be printed.
pub record IsWritable (m : Map Bytes AccountRecord) : Type 0 where
  pub unique_keys : HasUniqueKeys m
  pub own_name : (k : Bytes) (r : AccountRecord) → lookup k m ≡ some r → r.account.user_name ≡ k
  pub printable : (k : Bytes) (r : AccountRecord) → lookup k m ≡ some r → IsPrintable r

module _ (k : Bytes) (r : AccountRecord) (m : Map Bytes AccountRecord)
    (w : IsWritable ((k, r) ∷ m)) where
  lookup-head : lookup k ((k, r) ∷ m) ≡ some r
  unfolding lookup
  lookup-head = rw (beq_refl k) refl

  lookup-tail :
      (j : Bytes) (q : AccountRecord) → lookup j m ≡ some q → lookup j ((k, r) ∷ m) ≡ some q
  unfolding lookup
  lookup-tail j q e = ground (arith, bytes_beq_iff k j, w.unique_keys.0, e)

  tail-IsWritable : IsWritable m
  tail-IsWritable = record {
    unique_keys = w.unique_keys.1;
    own_name = λ j q e. w.own_name j q (lookup-tail j q e);
    printable = λ j q e. w.printable j q (lookup-tail j q e);
  }

-- No name of `m` is loaded yet.
abbrev pub IsNew : Map Bytes AccountRecord → Loaded → Type 0
IsNew m l = (j : Bytes) (q : AccountRecord) → lookup j m ≡ some q → lookup j l.accounts ≡ none

load_line-line_of :
    (r : AccountRecord) (l : Loaded)
    → IsPrintable r
    → lookup r.account.user_name l.accounts ≡ none
    → load_line (line_of r) l ≡ some (next_of r l)
unfolding load_line emplace
load_line-line_of r l p free = ground (arith, p.checked, p.given, free)

at_end_of_file : (input : Input) → Before input [] → read_line input ≡ failed true
unfolding read_line read_word sentry
at_end_of_file input b = ground (arith, b.good, b.next)

newline : is_space b'\n' ≡ true
unfolding is_space
newline = refl

pub accounts-Before :
    (m : Map Bytes AccountRecord)
    → IsWritable m
    → Before (record { rest = print_accounts m; eof = false }) (print_accounts m)
unfolding print_accounts skip_space
accounts-Before [] w = record { good = refl; next = refl }
accounts-Before ((k, r) ∷ m) w =
    print_record-Before r (w.printable k r (lookup-head k r m w)) (print_accounts m)

-- What is new stays new when another name is loaded.
next_of-IsNew :
    (k : Bytes) (r : AccountRecord) (m : Map Bytes AccountRecord) (l : Loaded)
    → IsWritable ((k, r) ∷ m)
    → r.account.user_name ≡ k
    → IsNew ((k, r) ∷ m) l
    → IsNew m (next_of r l)
unfolding lookup
next_of-IsNew k r m l w own new j q e = ground (
  arith,
  bytes_beq_iff r.account.user_name j,
  w.unique_keys.0,
  own,
  e,
  new j q (lookup-tail k r m w j q e),
)

pub load_loop-print_accounts :
    (fuel : ℕ) (m : Map Bytes AccountRecord) (l : Loaded) (input : Input)
    → length m < fuel
    → IsWritable m
    → IsNew m l
    → Before input (print_accounts m)
    → load_loop fuel input l ≡ some (some (load_all m l))
unfolding load_loop print_accounts
load_loop-print_accounts zero m l input enough w new b = absurd (omega arith)
load_loop-print_accounts (suc fuel) [] l input enough w new b =
    rw (at_end_of_file input b, load_loop) refl
load_loop-print_accounts (suc fuel) ((k, r) ∷ m) l input enough w new b =
    let own : r.account.user_name ≡ k = w.own_name k r (lookup-head k r m w) in
    let p : IsPrintable r = w.printable k r (lookup-head k r m w) in
    let free : lookup r.account.user_name l.accounts ≡ none =
      rw own (new k r (lookup-head k r m w)) in
    let new' : IsNew m (next_of r l) = next_of-IsNew k r m l w own new in
    let next : Before (record { rest = b'\n' ∷ print_accounts m; eof = false }) (print_accounts m) =
      space-Before b'\n' (print_accounts m) (print_accounts m) newline
        (accounts-Before m (tail-IsWritable k r m w)) in
    rw (read_line-print_record r p (print_accounts m) input b, load_loop)
      (rw (load_line-line_of r l p free) (
        load_loop-print_accounts fuel m (next_of r l)
          (record { rest = b'\n' ∷ print_accounts m; eof = false }) (omega arith)
          (tail-IsWritable k r m w) new' next))

abbrev pub or_else : {A : Type 0} → Option A → Option A → Option A
or_else none b = b
or_else (some a) b = some a

pub lookup-load_all :
    (m : Map Bytes AccountRecord) (l : Loaded) (j : Bytes)
    → IsWritable m
    → IsNew m l
    → lookup j (load_all m l).accounts ≡ or_else (lookup j m) (lookup j l.accounts)
unfolding lookup
lookup-load_all [] l j w new = refl
lookup-load_all ((k, r) ∷ m) l j w new =
    let own : r.account.user_name ≡ k = w.own_name k r (lookup-head k r m w) in
    ground (
      arith,
      bytes_beq_iff k j,
      bytes_beq_iff r.account.user_name j,
      w.unique_keys.0,
      own,
      lookup-load_all m (next_of r l) j (tail-IsWritable k r m w) (next_of-IsNew k r m l w own new),
    )

pub load_all-HasUniqueKeys :
    (m : Map Bytes AccountRecord) (l : Loaded)
    → IsWritable m
    → IsNew m l
    → HasUniqueKeys l.accounts
    → HasUniqueKeys (load_all m l).accounts
load_all-HasUniqueKeys [] l w new u = u
load_all-HasUniqueKeys ((k, r) ∷ m) l w new u =
    let own : r.account.user_name ≡ k = w.own_name k r (lookup-head k r m w) in
    load_all-HasUniqueKeys m (next_of r l) (tail-IsWritable k r m w)
      (next_of-IsNew k r m l w own new) (rw own (new k r (lookup-head k r m w)), u)

-- `next` is 0, or above `i`.
abbrev pub Covers : ℕ → ℕ → Type 0
Covers next i = next ≢ 0 → i < next

raise_next-Covers :
    (id next : ℕ)
    → id ≤ max_user_id
    → next ≤ max_user_id
    → Covers (raise_next id next) id
      × (raise_next id next ≤ max_user_id)
      × ((i : ℕ) → Covers next i → Covers (raise_next id next) i)
raise_next-Covers id next h g = (ground arith, ground arith, λ i c n. ground (arith, c))

pub load_all-Covers :
    (m : Map Bytes AccountRecord) (l : Loaded)
    → IsWritable m
    → l.next_user_id ≤ max_user_id
    → ((load_all m l).next_user_id ≤ max_user_id)
      × ((i : ℕ) → Covers l.next_user_id i → Covers (load_all m l).next_user_id i)
      × ((j : Bytes) (r : AccountRecord)
          → lookup j m ≡ some r
          → Covers (load_all m l).next_user_id r.account.user_id)
unfolding lookup
load_all-Covers [] l w h = (h, λ i c. c, λ j r e. absurd (ground (arith, e)))
load_all-Covers ((k, r) ∷ m) l w h =
    let fits : r.account.user_id < 2 ^ 32 = (w.printable k r (lookup-head k r m w)).user_id_fits in
    let (self, bound, others) =
      raise_next-Covers r.account.user_id l.next_user_id (omega arith) h in
    let (top, keeps, all) = load_all-Covers m (next_of r l) (tail-IsWritable k r m w) bound in
    (
      top,
      λ i c. keeps i (others i c),
      λ j q e n. ground (arith, e, n, keeps r.account.user_id self n, all j q),
    )
