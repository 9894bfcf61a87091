-- ===== src/Prelude/Map.antt =====
-- `std::unordered_map` as an association list that holds each key once.
use Prim.Native.Nat.{◌≤◌, ◌<◌}
use mathlib.Core.Path.{◌≡◌, refl, ap}
use mathlib.Core.Bool.{false}
use mathlib.Core.Option
use mathlib.Core.Option.{Option, none, some}
use mathlib.Core.List.{List, [], ◌∷◌}
use native.Mathlib.Omega.{arith}
use arena_game.Prelude.Tests.{if◌then◌else◌}
use arena_game.Prelude.Equality.{Eq, ◌==◌}
use arena_game.Prelude.Lists.{length}

abbrev pub Map {ℓ κ} : Type ℓ → Type κ → Type (ℓ ⊔ κ)
Map K V = List (K × V)

module _ {ℓ κ} {K : Type ℓ} {V : Type κ} ⦃e : Eq K⦄ where
  -- `find`
  unfoldable pub lookup : K → Map K V → Option V
  lookup k [] = none
  lookup k ((j, v) ∷ m) = if j == k then some v else lookup k m

  unfoldable pub erase : K → Map K V → Map K V
  erase k [] = []
  erase k ((j, v) ∷ m) = if j == k then erase k m else (j, v) ∷ erase k m

  -- `m[k] = v`
  unfoldable pub insert : K → V → Map K V → Map K V
  insert k v m = (k, v) ∷ erase k m

  -- `m.emplace(k, v)` keeps an entry that is there.
  unfoldable pub emplace : K → V → Map K V → Map K V
  emplace k v m = elim (lookup k m) [ none ↦ (k, v) ∷ m | some _ ↦ m ]

  pub lookup-erase :
      (k j : K) (m : Map K V) → lookup j (erase k m) ≡ (if k == j then none else lookup j m)
  unfolding lookup erase
  lookup-erase k j [] = ground arith
  lookup-erase k j ((i, v) ∷ m) =
      ground (arith, e.beq_iff i k, e.beq_iff i j, e.beq_iff k j, lookup-erase k j m)

  pub lookup-insert :
      (k j : K) (v : V) (m : Map K V)
      → lookup j (insert k v m) ≡ (if k == j then some v else lookup j m)
  unfolding lookup insert
  lookup-insert k j v m = ground (arith, lookup-erase k j m)

  pub lookup-emplace :
      (k j : K) (v : V) (m : Map K V)
      → lookup k m ≡ none
      → lookup j (emplace k v m) ≡ (if k == j then some v else lookup j m)
  unfolding lookup emplace
  lookup-emplace k j v m h = ground arith

  pub erase_absent : (k : K) (m : Map K V) → lookup k m ≡ none → erase k m ≡ m
  unfolding lookup erase
  erase_absent k [] h = refl
  erase_absent k ((i, v) ∷ m) h = ground (arith, erase_absent k m)

  pub length-erase-le : (k : K) (m : Map K V) → length (erase k m) ≤ length m
  unfolding erase
  length-erase-le k [] = omega arith
  length-erase-le k ((i, v) ∷ m) = ground (arith, length-erase-le k m)

  pub length-erase-lt :
      (k : K) (m : Map K V) {v : V} → lookup k m ≡ some v → length (erase k m) < length m
  unfolding lookup erase
  length-erase-lt k [] h = cc
  length-erase-lt k ((i, w) ∷ m) {v} h =
      ground (arith, length-erase-le k m, length-erase-lt k m {v = v})

-- The laws that say what a map holds after a change.
pub ruleset maps = (lookup-insert, lookup-erase)

-- A write through a reference to the entry of `k`.
module _ {ℓ κ} {K : Type ℓ} {V : Type κ} ⦃e : Eq K⦄ where
  unfoldable pub adjust : K → (V → V) → Map K V → Map K V
  adjust k f [] = []
  adjust k f ((j, v) ∷ m) = if j == k then (j, f v) ∷ m else (j, v) ∷ adjust k f m

  pub lookup-adjust :
      (k j : K) (f : V → V) (m : Map K V)
      → lookup j (adjust k f m) ≡ (if k == j then Option.map f (lookup j m) else lookup j m)
  unfolding lookup adjust
  lookup-adjust k j f [] = ground arith
  lookup-adjust k j f ((i, v) ∷ m) =
      ground (arith, e.beq_iff i k, e.beq_iff i j, e.beq_iff k j, lookup-adjust k j f m)

  pub adjust-adjust_undo :
      (k : K) (f g : V → V) (m : Map K V) (v : V)
      → lookup k m ≡ some v
      → g (f v) ≡ v
      → adjust k g (adjust k f m) ≡ m
  unfolding lookup adjust
  adjust-adjust_undo k f g [] v h u = refl
  adjust-adjust_undo k f g ((i, w) ∷ m) v h u =
      ground (arith, adjust-adjust_undo k f g m v, ap f, ap g)

  pub adjust-adjust_comm :
      (k j : K) (f g : V → V) (m : Map K V)
      → (k == j) ≡ false
      → adjust k f (adjust j g m) ≡ adjust j g (adjust k f m)
  unfolding adjust
  adjust-adjust_comm k j f g [] h = refl
  adjust-adjust_comm k j f g ((i, w) ∷ m) h =
      ground (arith, e.beq_iff i k, e.beq_iff i j, e.beq_iff k j, adjust-adjust_comm k j f g m)

  pub erase-emplace_absent :
      (k : K) (v : V) (m : Map K V) → lookup k m ≡ none → erase k (emplace k v m) ≡ m
  unfolding emplace erase
  erase-emplace_absent k v m h = ground (arith, e.beq_iff k k, erase_absent k m)
