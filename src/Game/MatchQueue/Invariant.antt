-- ===== src/Game/MatchQueue/Invariant.antt =====
-- The three indexes of server/game/MatchQueue.cc hold the same tickets.
use arena_game.Prelude.{
  ℕ, ◌≡◌, Option, none, some, true, not, arith, if◌then◌else◌, inl, inr, Option-cases, Bool-cases,
  ◌==◌, nat_eq, ap,
}
use mathlib.Core.Option
use arena_game.Prelude.Map.{lookup, emplace, erase, lookup-erase, lookup-emplace}
use arena_game.Prelude.OrderedSet.{
  Key, contains as set_contains, set_insert, set_erase, contains-set_insert, contains-set_erase,
}
use arena_game.Game.MatchQueue.{
  MatchTicket, MatchQueue, empty_match_queue, elo_key, wait_key, join, cancel, remove_ticket,
  try_match, match_loop, contains,
}

-- A ticket stands under its user, and in both orders.
pub record IsIndexed (q : MatchQueue) (u : ℕ) (t : MatchTicket) : Type 0 where
  pub own_user : t.user_id ≡ u
  pub by_elo : set_contains (elo_key t) q.tickets_by_elo ≡ true
  pub by_wait_time : set_contains (wait_key t) q.tickets_by_wait_time ≡ true

-- The keys of a ticket.
abbrev pub elo_key_at : MatchQueue → ℕ → Option Key
elo_key_at q u = Option.map elo_key (lookup u q.tickets_by_user_id)

abbrev pub wait_key_at : MatchQueue → ℕ → Option Key
wait_key_at q u = Option.map wait_key (lookup u q.tickets_by_user_id)

pub record IsValid (q : MatchQueue) : Type 0 where
  pub indexed : (u : ℕ) (t : MatchTicket) → lookup u q.tickets_by_user_id ≡ some t → IsIndexed q u t
  pub elo_known :
      (r u : ℕ) → set_contains (r, u) q.tickets_by_elo ≡ true → elo_key_at q u ≡ some (r, u)
  pub wait_known :
      (r u : ℕ) → set_contains (r, u) q.tickets_by_wait_time ≡ true → wait_key_at q u ≡ some (r, u)

pub empty-IsValid : IsValid empty_match_queue
unfolding lookup set_contains
empty-IsValid = record { indexed = λ u t e. cc; elo_known = λ r u e. cc; wait_known = λ r u e. cc }

module _ (t : MatchTicket) (q : MatchQueue) (v : IsValid q)
    (free : lookup t.user_id q.tickets_by_user_id ≡ none) where
  abbrev joined : MatchQueue
  joined = record {
    tickets_by_elo = set_insert (elo_key t) q.tickets_by_elo;
    tickets_by_wait_time = set_insert (wait_key t) q.tickets_by_wait_time;
    tickets_by_user_id = emplace t.user_id t q.tickets_by_user_id;
  }

  joined-IsIndexed :
      (u : ℕ) (s : MatchTicket) → lookup u joined.tickets_by_user_id ≡ some s → IsIndexed joined u s
  joined-IsIndexed u s e = ground (
    arith,
    e,
    v.indexed u s,
    lookup-emplace t.user_id u t q.tickets_by_user_id free,
    contains-set_insert (elo_key t) (elo_key s) q.tickets_by_elo,
    contains-set_insert (wait_key t) (wait_key s) q.tickets_by_wait_time,
  )

  joined-elo_known :
      (r u : ℕ)
      → set_contains (r, u) joined.tickets_by_elo ≡ true
      → elo_key_at joined u ≡ some (r, u)
  joined-elo_known r u e = ground (
    arith,
    e,
    v.elo_known r u,
    lookup-emplace t.user_id u t q.tickets_by_user_id free,
    contains-set_insert (elo_key t) (r, u) q.tickets_by_elo,
  )

  joined-wait_known :
      (r u : ℕ)
      → set_contains (r, u) joined.tickets_by_wait_time ≡ true
      → wait_key_at joined u ≡ some (r, u)
  joined-wait_known r u e = ground (
    arith,
    e,
    v.wait_known r u,
    lookup-emplace t.user_id u t q.tickets_by_user_id free,
    contains-set_insert (wait_key t) (r, u) q.tickets_by_wait_time,
  )

  joined-IsValid : IsValid joined
  joined-IsValid = record {
    indexed = joined-IsIndexed;
    elo_known = joined-elo_known;
    wait_known = joined-wait_known;
  }

pub join-IsValid : (t : MatchTicket) (q : MatchQueue) → IsValid q → IsValid (join t q).0
unfolding join
join-IsValid t q v = elim (Option-cases (lookup t.user_id q.tickets_by_user_id)) [
  | inl free ↦ rw (free, contains) (joined-IsValid t q v free)
  | inr (s, taken) ↦ rw (taken, contains) v
]

module _ (w : ℕ) (t : MatchTicket) (q : MatchQueue) (v : IsValid q)
    (there : lookup w q.tickets_by_user_id ≡ some t) where
  abbrev left : MatchQueue
  left = record {
    tickets_by_elo = set_erase (elo_key t) q.tickets_by_elo;
    tickets_by_wait_time = set_erase (wait_key t) q.tickets_by_wait_time;
    tickets_by_user_id = erase w q.tickets_by_user_id;
  }

  left-IsIndexed :
      (u : ℕ) (s : MatchTicket) → lookup u left.tickets_by_user_id ≡ some s → IsIndexed left u s
  left-IsIndexed u s e = ground (
    arith,
    e,
    v.indexed u s,
    v.indexed w t there,
    lookup-erase w u q.tickets_by_user_id,
    contains-set_erase (elo_key t) (elo_key s) q.tickets_by_elo,
    contains-set_erase (wait_key t) (wait_key s) q.tickets_by_wait_time,
  )

  left-elo_known :
      (r u : ℕ) → set_contains (r, u) left.tickets_by_elo ≡ true → elo_key_at left u ≡ some (r, u)
  left-elo_known r u e = ground (
    arith,
    e,
    v.elo_known r u,
    v.indexed w t there,
    there,
    lookup-erase w u q.tickets_by_user_id,
    contains-set_erase (elo_key t) (r, u) q.tickets_by_elo,
  )

  left-wait_known :
      (r u : ℕ)
      → set_contains (r, u) left.tickets_by_wait_time ≡ true
      → wait_key_at left u ≡ some (r, u)
  left-wait_known r u e = ground (
    arith,
    e,
    v.wait_known r u,
    v.indexed w t there,
    there,
    lookup-erase w u q.tickets_by_user_id,
    contains-set_erase (wait_key t) (r, u) q.tickets_by_wait_time,
  )

  left-IsValid : IsValid left
  left-IsValid = record {
    indexed = left-IsIndexed;
    elo_known = left-elo_known;
    wait_known = left-wait_known;
  }

pub remove_ticket-IsValid : (w : ℕ) (q : MatchQueue) → IsValid q → IsValid (remove_ticket w q)
unfolding remove_ticket
remove_ticket-IsValid w q v = elim (Option-cases (lookup w q.tickets_by_user_id)) [
  | inl e ↦ rw (e, remove_ticket) v
  | inr (t, e) ↦ rw (e, remove_ticket) (left-IsValid w t q v e)
]

-- A ticket that is removed is gone, and the others stay.
pub lookup-remove_ticket :
    (w u : ℕ) (q : MatchQueue)
    → lookup u (remove_ticket w q).tickets_by_user_id
      ≡ (if w == u then none else lookup u q.tickets_by_user_id)
unfolding remove_ticket
lookup-remove_ticket w u q = elim (Option-cases (lookup w q.tickets_by_user_id)) [
  | inl e ↦ ground (arith, e, ap (λ (k : ℕ). lookup k q.tickets_by_user_id))
  | inr (t, e) ↦ ground (arith, e, lookup-erase w u q.tickets_by_user_id)
]

-- Where the three indexes hold the same tickets, they still do after a ticket joins, is cancelled
-- or removed, and after an attempt to match.
pub queue_operations-IsValid :
    (q : MatchQueue)
    → IsValid q
    → ((t : MatchTicket) → IsValid (join t q).0)
      × ((u : ℕ) → IsValid (cancel u q).0)
      × ((now : ℕ) → IsValid (try_match now q).0)
      × ((u : ℕ) → IsValid (remove_ticket u q))
unfolding cancel try_match
queue_operations-IsValid q v = (
  λ t. join-IsValid t q v,
  λ u. elim (Bool-cases (not (contains u q))) [
    | inl e ↦ rw e v
    | inr e ↦ rw e (remove_ticket-IsValid u q v)
  ],
  λ now. elim (Option-cases (match_loop q now q.tickets_by_wait_time)) [
    | inl e ↦ rw (e, try_match) v
    | inr (pair, e) ↦
        rw (e, try_match)
          (remove_ticket-IsValid pair.second.user_id (remove_ticket pair.first.user_id q)
            (remove_ticket-IsValid pair.first.user_id q v))
  ],
  λ u. remove_ticket-IsValid u q v,
)
