-- ===== src/Net/Timers/Entries.antt =====
-- The ordered set of entries of server/muduo/TimerQueue.cc.
use arena_game.Prelude.{
  ℕ, ◌≡◌, refl, ap, ◌∙◌, Bool, true, false, not, ◌&&◌, ◌||◌, List, [], ◌∷◌, ◌++◌, All, nat_beq,
  nat_eq, arith, inl, inr, Bool-cases,
}
use arena_game.Prelude.OrderedSet.{Key, key_eq, key_lt, contains, set_erase, contains-set_erase}
use arena_game.Net.Timers.{
  Timer, id_of, key_of, insert_entry, erase_entry, split_below, erase_active,
}

-- A timer with that address and number is in the list; one with that number is.
abbrev pub has_id : Key → List Timer → Bool
has_id k [] = false
has_id k (t ∷ l) = key_eq (id_of t) k || has_id k l

abbrev pub has_sequence : ℕ → List Timer → Bool
has_sequence s [] = false
has_sequence s (t ∷ l) = nat_beq t.sequence s || has_sequence s l

-- All entries come after a key.
abbrev pub Above : Key → List Timer → Type 0
Above k = All (λ t. key_lt k (key_of t) ≡ true)

-- In ascending order, without repetition.
abbrev pub IsAscending : List Timer → Type 0
IsAscending [] = Unit {0}
IsAscending (t ∷ l) = Above (key_of t) l × IsAscending l

-- No number stands twice.
abbrev pub IsDistinct : List Timer → Type 0
IsDistinct [] = Unit {0}
IsDistinct (t ∷ l) = (has_sequence t.sequence l ≡ false) × IsDistinct l

key_lt_trans : (i j k : Key) → key_lt i j ≡ true → key_lt j k ≡ true → key_lt i k ≡ true
key_lt_trans (a, b) (c, d) (e, f) h g = ground (arith, h, g)

key_lt_total : (i j : Key) → key_eq j i ≡ false → key_lt i j ≡ false → key_lt j i ≡ true
key_lt_total (a, b) (c, d) h g = ground (arith, h, g)

Above-trans : (i j : Key) (l : List Timer) → key_lt i j ≡ true → Above j l → Above i l
Above-trans i j [] h a = tt
Above-trans i j (t ∷ l) h (b, a) = (key_lt_trans i j (key_of t) h b, Above-trans i j l h a)

-- Entries with one number have one key; a number that is new is a key that is new.
fresh_key :
    (t u : Timer) → nat_beq u.sequence t.sequence ≡ false → key_eq (key_of u) (key_of t) ≡ false
fresh_key t u h = ground (arith, h)

module _ (t : Timer) where
  pub insert_entry-All :
      (P : Timer → Type 0) (l : List Timer) → P t → All P l → All P (insert_entry t l)
  unfolding insert_entry
  insert_entry-All P [] h a = (h, tt)
  insert_entry-All P (u ∷ l) h (b, a) = elim (Bool-cases (key_eq (key_of u) (key_of t))) [
    | inl e ↦ rw e (b, a)
    | inr e ↦ elim (Bool-cases (key_lt (key_of t) (key_of u))) [
      | inl f ↦ rw (e, f) (h, (b, a))
      | inr f ↦ rw (e, f) (b, insert_entry-All P l h a)
    ]
  ]

  pub insert_entry-IsAscending : (l : List Timer) → IsAscending l → IsAscending (insert_entry t l)
  unfolding insert_entry
  insert_entry-IsAscending [] o = (tt, tt)
  insert_entry-IsAscending (u ∷ l) (a, o) = elim (Bool-cases (key_eq (key_of u) (key_of t))) [
    | inl e ↦ rw e (a, o)
    | inr e ↦ elim (Bool-cases (key_lt (key_of t) (key_of u))) [
      | inl f ↦ rw (e, f) ((f, Above-trans (key_of t) (key_of u) l f a), (a, o))
      | inr f ↦
          rw (e, f)
            (
              insert_entry-All (λ v. key_lt (key_of u) (key_of v) ≡ true) l
                  (key_lt_total (key_of t) (key_of u) e f) a,
              insert_entry-IsAscending l o,
            )
    ]
  ]

  -- What is in the list after the insertion of a timer with a new number.
  pub has_id-insert_entry :
      (k : Key) (l : List Timer)
      → has_sequence t.sequence l ≡ false
      → has_id k (insert_entry t l) ≡ (key_eq (id_of t) k || has_id k l)
  unfolding insert_entry
  has_id-insert_entry k [] h = refl
  has_id-insert_entry k (u ∷ l) h = ground (arith, h, fresh_key t u, has_id-insert_entry k l)

  pub has_sequence-insert_entry :
      (s : ℕ) (l : List Timer)
      → has_sequence t.sequence l ≡ false
      → has_sequence s (insert_entry t l) ≡ (nat_beq t.sequence s || has_sequence s l)
  unfolding insert_entry
  has_sequence-insert_entry s [] h = refl
  has_sequence-insert_entry s (u ∷ l) h =
      ground (arith, h, fresh_key t u, has_sequence-insert_entry s l)

  pub insert_entry-IsDistinct :
      (l : List Timer)
      → has_sequence t.sequence l ≡ false
      → IsDistinct l
      → IsDistinct (insert_entry t l)
  unfolding insert_entry
  insert_entry-IsDistinct [] h d = (refl, tt)
  insert_entry-IsDistinct (u ∷ l) h (a, d) = elim (Bool-cases (key_eq (key_of u) (key_of t))) [
    | inl e ↦ rw e (a, d)
    | inr e ↦ elim (Bool-cases (key_lt (key_of t) (key_of u))) [
      | inl f ↦ rw (e, f) (h, (a, d))
      | inr f ↦
          rw (e, f)
            (
              has_sequence-insert_entry u.sequence l (ground (arith, h)) ∙ ground (arith, h, a),
              insert_entry-IsDistinct l (ground (arith, h)) d,
            )
    ]
  ]

module _ (i : Key) where
  pub erase_entry-All : (P : Timer → Type 0) (l : List Timer) → All P l → All P (erase_entry i l)
  unfolding erase_entry
  erase_entry-All P [] a = tt
  erase_entry-All P (u ∷ l) (b, a) = elim (Bool-cases (key_eq (id_of u) i)) [
    | inl e ↦ rw e (erase_entry-All P l a)
    | inr e ↦ rw e (b, erase_entry-All P l a)
  ]

  pub erase_entry-IsAscending : (l : List Timer) → IsAscending l → IsAscending (erase_entry i l)
  unfolding erase_entry
  erase_entry-IsAscending [] o = tt
  erase_entry-IsAscending (u ∷ l) (a, o) = elim (Bool-cases (key_eq (id_of u) i)) [
    | inl e ↦ rw e (erase_entry-IsAscending l o)
    | inr e ↦ rw e (
      erase_entry-All (λ v. key_lt (key_of u) (key_of v) ≡ true) l a,
      erase_entry-IsAscending l o,
    )
  ]

  pub has_id-erase_entry :
      (k : Key) (l : List Timer) → has_id k (erase_entry i l) ≡ (not (key_eq i k) && has_id k l)
  unfolding erase_entry
  has_id-erase_entry k [] = ground arith
  has_id-erase_entry (a, b) (u ∷ l) = ground (arith, has_id-erase_entry (a, b) l)

  -- What was not there is not there.
  pub has_sequence-erase_entry :
      (s : ℕ) (l : List Timer) → has_sequence s l ≡ false → has_sequence s (erase_entry i l) ≡ false
  unfolding erase_entry
  has_sequence-erase_entry s [] h = refl
  has_sequence-erase_entry s (u ∷ l) h = ground (arith, h, has_sequence-erase_entry s l)

  pub erase_entry-IsDistinct : (l : List Timer) → IsDistinct l → IsDistinct (erase_entry i l)
  unfolding erase_entry
  erase_entry-IsDistinct [] d = tt
  erase_entry-IsDistinct (u ∷ l) (a, d) = elim (Bool-cases (key_eq (id_of u) i)) [
    | inl e ↦ rw e (erase_entry-IsDistinct l d)
    | inr e ↦ rw e (has_sequence-erase_entry u.sequence l a, erase_entry-IsDistinct l d)
  ]

-- What `lower_bound` cuts off, of entries in ascending order.
pub record IsSplit (bound : Key) (l : List Timer) (below above : List Timer) : Type 0 where
  pub together : l ≡ below ++ above
  pub all_below : All (λ t. key_lt (key_of t) bound ≡ true) below
  pub none_below : All (λ t. key_lt (key_of t) bound ≡ false) above
  pub above_ascends : IsAscending above

not_below :
    (bound k : Key) (l : List Timer)
    → key_lt k bound ≡ false
    → Above k l
    → All (λ t. key_lt (key_of t) bound ≡ false) l
not_below bound k [] h a = tt
not_below (x, y) (z, w) (t ∷ l) h (b, a) = (ground (arith, h, b), not_below (x, y) (z, w) l h a)

pub split_below-IsSplit :
    (bound : Key) (l : List Timer)
    → IsAscending l
    → IsSplit bound l (split_below bound l).0 (split_below bound l).1
unfolding split_below
split_below-IsSplit bound [] o = record {
  together = refl;
  all_below = tt;
  none_below = tt;
  above_ascends = tt;
}
split_below-IsSplit bound (t ∷ l) (a, o) = elim (Bool-cases (key_lt (key_of t) bound)) [
  | inl e ↦
      let s = split_below-IsSplit bound l o in
      rw e (record {
        together = ap (◌∷◌ t) s.together;
        all_below = (e, s.all_below);
        none_below = s.none_below;
        above_ascends = s.above_ascends;
      })
  | inr e ↦ rw e (record {
    together = refl;
    all_below = tt;
    none_below = (e, not_below bound (key_of t) l e a);
    above_ascends = (a, o);
  })
]

-- The two parts have no number in common.
pub append-IsDistinct :
    (xs ys : List Timer)
    → IsDistinct (xs ++ ys)
    → IsDistinct xs × IsDistinct ys × All (λ t. has_sequence t.sequence ys ≡ false) xs
append-IsDistinct [] ys d = (tt, d, tt)
append-IsDistinct (t ∷ xs) ys (a, d) =
    let (first, second, apart) = append-IsDistinct xs ys d in
    let (b, c) = has_sequence-append t.sequence xs ys a in ((b, first), second, (c, apart))
  where
    has_sequence-append :
        (s : ℕ) (xs ys : List Timer)
        → has_sequence s (xs ++ ys) ≡ false
        → (has_sequence s xs ≡ false) × (has_sequence s ys ≡ false)
    has_sequence-append s [] ys h = (refl, h)
    has_sequence-append s (u ∷ xs) ys h =
        let (b, c) = has_sequence-append s xs ys (ground (arith, h)) in (ground (arith, h, b), c)

pub All-append : (P : Timer → Type 0) (xs ys : List Timer) → All P (xs ++ ys) → All P xs × All P ys
All-append P [] ys a = (tt, a)
All-append P (t ∷ xs) ys (h, a) = let (b, c) = All-append P xs ys a in ((h, b), c)

-- An id that is in a list has its number in it.
has_id-has_sequence : (k : Key) (l : List Timer) → has_sequence k.1 l ≡ false → has_id k l ≡ false
has_id-has_sequence k [] h = refl
has_id-has_sequence (a, b) (t ∷ l) h = ground (arith, h, has_id-has_sequence (a, b) l)

-- The set of active timers after the expired ones are taken out.
pub contains-erase_active :
    (k : Key) (expired later : List Timer) (active : List Key)
    → IsDistinct (expired ++ later)
    → contains k active ≡ has_id k (expired ++ later)
    → contains k (erase_active expired active) ≡ has_id k later
contains-erase_active k [] later active a h = h
contains-erase_active k (t ∷ expired) later active (b, d) h =
    contains-erase_active k expired later (set_erase (id_of t) active) d
      (contains-set_erase (id_of t) k active ∙ gone k t (expired ++ later) b h)
  where
    gone :
        (k : Key) (t : Timer) (l : List Timer)
        → has_sequence t.sequence l ≡ false
        → contains k active ≡ (key_eq (id_of t) k || has_id k l)
        → (not (key_eq (id_of t) k) && contains k active) ≡ has_id k l
    gone (a, c) t l b h = ground (arith, b, h, has_id-has_sequence (a, c) l)
