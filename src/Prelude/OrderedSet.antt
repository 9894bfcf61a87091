-- ===== src/Prelude/OrderedSet.antt =====
-- `std::set<std::pair<A, B>>` of numbers: an ascending list without repetition.
use Prim.Native.Nat.{ℕ}
use mathlib.Core.Path.{◌≡◌}
use mathlib.Core.Logic.{◌⊎◌, inl, inr}
use mathlib.Core.Bool.{Bool, true, false, not, ◌&&◌, ◌||◌}
use mathlib.Core.Option.{Option, none, some}
use mathlib.Core.List.{List, [], ◌∷◌}
use native.Mathlib.Omega.{arith}
use arena_game.Prelude.Tests.{ltb, nat_beq, if◌then◌else◌}

abbrev pub Key : Type 0
Key = ℕ × ℕ

abbrev pub key_eq : Key → Key → Bool
key_eq (a, b) (c, d) = nat_beq a c && nat_beq b d

-- `operator<` of `std::pair`
abbrev pub key_lt : Key → Key → Bool
key_lt (a, b) (c, d) = ltb a c || (nat_beq a c && ltb b d)

unfoldable pub contains : Key → List Key → Bool
contains k [] = false
contains k (j ∷ l) = key_eq j k || contains k l

-- `emplace` keeps a key that is there.
unfoldable pub set_insert : Key → List Key → List Key
set_insert k [] = k ∷ []
set_insert k (j ∷ l) =
    if key_eq j k then j ∷ l else (if key_lt k j then k ∷ j ∷ l else j ∷ set_insert k l)

unfoldable pub set_erase : Key → List Key → List Key
set_erase k [] = []
set_erase k (j ∷ l) = if key_eq j k then set_erase k l else j ∷ set_erase k l

abbrev pub first_key : List Key → Option Key
first_key [] = none
first_key (j ∷ l) = some j

-- `std::next` of the iterator at `k`; `none` is `end()`.
unfoldable pub next_key : Key → List Key → Option Key
next_key k [] = none
next_key k (j ∷ l) = let later = next_key k l in if key_eq j k then first_key l else later

-- `std::prev` of the iterator at `k`; `none` where that is `begin()`. `last` is the key before.
unfoldable pub prev_key : Key → Option Key → List Key → Option Key
prev_key k last [] = none
prev_key k last (j ∷ l) = let later = prev_key k (some j) l in if key_eq j k then last else later

pub contains-set_insert :
    (k j : Key) (l : List Key) → contains j (set_insert k l) ≡ (key_eq k j || contains j l)
unfolding contains set_insert
contains-set_insert (a, b) (c, d) [] = ground arith
contains-set_insert (a, b) (c, d) ((e, f) ∷ l) = ground (arith, contains-set_insert (a, b) (c, d) l)

pub contains-set_erase :
    (k j : Key) (l : List Key) → contains j (set_erase k l) ≡ (not (key_eq k j) && contains j l)
unfolding contains set_erase
contains-set_erase (a, b) (c, d) [] = ground arith
contains-set_erase (a, b) (c, d) ((e, f) ∷ l) = ground (arith, contains-set_erase (a, b) (c, d) l)

-- A neighbour is a key of the set.
pub contains-next_key : (k j : Key) (l : List Key) → next_key k l ≡ some j → contains j l ≡ true
unfolding contains next_key
contains-next_key (a, b) (c, d) [] h = cc
contains-next_key (a, b) (c, d) ((e, f) ∷ []) h = ground arith
contains-next_key (a, b) (c, d) ((e, f) ∷ (g, i) ∷ l) h =
    ground (arith, contains-next_key (a, b) (c, d) ((g, i) ∷ l))

contains-prev_key_from :
    (k j : Key) (last : Option Key) (l : List Key)
    → prev_key k last l ≡ some j
    → (last ≡ some j) ⊎ (contains j l ≡ true)
unfolding contains prev_key
contains-prev_key_from (a, b) (c, d) last [] h = cc
contains-prev_key_from (a, b) (c, d) last ((e, f) ∷ l) h =
    ground (arith, h, contains-prev_key_from (a, b) (c, d) (some (e, f)) l)

pub contains-prev_key :
    (k j : Key) (l : List Key) → prev_key k none l ≡ some j → contains j l ≡ true
contains-prev_key k j l h = elim (contains-prev_key_from k j none l h) [ inl e ↦ cc | inr e ↦ e ]
