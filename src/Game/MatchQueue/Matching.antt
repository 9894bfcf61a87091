-- ===== src/Game/MatchQueue/Matching.antt =====
-- Whom `tryMatch` of server/game/MatchQueue.cc pairs, and what stays in the queue.
use arena_game.Prelude.{
  ℕ, ◌+◌, ◌-◌, ◌^◌, ◌<◌, ◌≤◌, ◌≡◌, ◌≢◌, refl, Option, none, some, true, ◌||◌, arith, if◌then◌else◌,
  inl, inr, Option-cases, Bool-cases, ◌==◌, nat_eq, ap, ◌∙◌, List, [], ◌∷◌,
}
use arena_game.Prelude.Map.{lookup, length-erase-lt}
use arena_game.Prelude.OrderedSet.{
  Key, key_eq, contains as set_contains, contains-next_key, contains-prev_key,
}
use arena_game.Prelude.Float
use arena_game.Prelude.Float.{Float}
use arena_game.Game.MatchQueue.{
  MatchTicket, MatchPair, MatchQueue, elo_key, elo_difference, allowed_elo_range, consider,
  consider_ticket, Best, best_second, match_at, match_loop, try_match, remove_ticket, size,
}
use arena_game.Game.MatchQueue.Invariant.{IsValid, remove_ticket-IsValid, lookup-remove_ticket}

-- `c` waits too, is somebody else, and its rating lies within the range of `first`.
pub record IsCandidate (q : MatchQueue) (first : MatchTicket) (range : Float) (c : MatchTicket)
    : Type 0 where
  pub there : lookup c.user_id q.tickets_by_user_id ≡ some c
  pub other : c.user_id ≢ first.user_id
  pub within : Float.of_ℕ (elo_difference first.elo c.elo) ≤ range

module _ (q : MatchQueue) (first : MatchTicket) (range : Float) (v : IsValid q)
    (here : lookup first.user_id q.tickets_by_user_id ≡ some first) where
  abbrev IsSound : Best → Type 0
  IsSound best = (c : MatchTicket) → best.0 ≡ some c → IsCandidate q first range c

  consider_ticket-IsSound :
      (candidate : MatchTicket) (best : Best)
      → lookup candidate.user_id q.tickets_by_user_id ≡ some candidate
      → candidate.user_id ≢ first.user_id
      → IsSound best
      → IsSound (consider_ticket first range candidate best)
  unfolding consider_ticket
  consider_ticket-IsSound candidate (best, d) there other sound c e =
      ground (arith, there, other, e, sound c)

  consider-IsSound :
      (key : Option Key) (best : Best)
      → ((k : Key) → key ≡ some k → set_contains k q.tickets_by_elo ≡ true)
      → IsSound best
      → IsSound (consider q first range key best)
  unfolding consider
  consider-IsSound none best known sound = sound
  consider-IsSound (some (r, u)) best known sound =
      elim (Bool-cases (key_eq (r, u) (elo_key first))) [
        | inl own ↦ rw own sound
        | inr apart ↦ elim (Option-cases (lookup u q.tickets_by_user_id)) [
          | inl e ↦ rw (apart, e) sound
          | inr (candidate, e) ↦
              rw (apart, e)
                (consider_ticket-IsSound candidate best (ground (arith, e, v.indexed u candidate e))
                  (λ same. ground (
                    arith,
                    e,
                    here,
                    same,
                    v.indexed u candidate e,
                    apart,
                    v.elo_known r u (known (r, u) refl),
                  ))
                  sound)
        ]
      ]

  best_second_from :
      (before after : Option Key)
      → ((k : Key) → before ≡ some k → set_contains k q.tickets_by_elo ≡ true)
      → ((k : Key) → after ≡ some k → set_contains k q.tickets_by_elo ≡ true)
      → IsSound (consider q first range after (consider q first range before (none, 2 ^ 32 - 1)))
  best_second_from before after hb ha =
      consider-IsSound after _ ha (consider-IsSound before _ hb (λ c e. cc))

-- Two tickets of the queue, of different users, the second within the range of the first.
pub record IsMatch (q : MatchQueue) (now : ℕ) (pair : MatchPair) : Type 0 where
  pub waiting : lookup pair.first.user_id q.tickets_by_user_id ≡ some pair.first
  pub candidate : IsCandidate q pair.first (allowed_elo_range pair.first now) pair.second

module _ (q : MatchQueue) (now : ℕ) (v : IsValid q) where
  best_second-IsCandidate :
      (first c : MatchTicket)
      → lookup first.user_id q.tickets_by_user_id ≡ some first
      → best_second q now first ≡ some c
      → IsCandidate q first (allowed_elo_range first now) c
  unfolding best_second
  best_second-IsCandidate first c here e =
      best_second_from q first (allowed_elo_range first now) v here _ _
        (λ k h. contains-prev_key (elo_key first) k q.tickets_by_elo h)
        (λ k h. contains-next_key (elo_key first) k q.tickets_by_elo h) c e

  match_at-IsMatch : (u : ℕ) (pair : MatchPair) → match_at q now u ≡ some pair → IsMatch q now pair
  unfolding match_at
  match_at-IsMatch u pair e = elim (Option-cases (lookup u q.tickets_by_user_id)) [
    | inl g ↦ absurd (ground (arith, e, g))
    | inr (t, g) ↦
        let here : lookup t.user_id q.tickets_by_user_id ≡ some t =
          ground (arith, g, v.indexed u t g) in
        elim (Option-cases (best_second q now t)) [
          | inl h ↦ absurd (ground (arith, e, g, h))
          | inr (c, h) ↦
              let same : pair ≡ record { first = t; second = c } = ground (arith, e, g, h) in
              rw same (record { waiting = here; candidate = best_second-IsCandidate t c here h })
        ]
  ]

  match_loop-IsMatch :
      (keys : List Key) (pair : MatchPair) → match_loop q now keys ≡ some pair → IsMatch q now pair
  unfolding match_loop
  match_loop-IsMatch [] pair e = cc
  match_loop-IsMatch (k ∷ keys) pair e = elim (Option-cases (match_at q now (k.1))) [
    | inl g ↦ match_loop-IsMatch keys pair (ground (arith, e, g))
    | inr (p, g) ↦ match_at-IsMatch (k.1) pair (ground (arith, e, g))
  ]

  -- Where the three indexes hold the same tickets, a pair that is found waited in the queue: two
  -- different users, their ratings within the range that the first is allowed. Afterwards both
  -- have left the queue, nobody else has, and the indexes still hold the same tickets.
  pub try_match-IsMatch :
      (pair : MatchPair)
      → (try_match now q).1 ≡ some pair
      → IsMatch q now pair
        × IsValid (try_match now q).0
        × ((u : ℕ)
            → lookup u (try_match now q).0.tickets_by_user_id ≡ (
                if pair.first.user_id == u || pair.second.user_id == u
                then none
                else lookup u q.tickets_by_user_id))
  unfolding try_match
  try_match-IsMatch pair e = elim (Option-cases (match_loop q now q.tickets_by_wait_time)) [
    | inl g ↦ absurd (ground (arith, e, g))
    | inr (p, g) ↦
        let same : p ≡ pair = ground (arith, e, g) in
        rw (g, try_match, same)
          (
            match_loop-IsMatch q.tickets_by_wait_time pair (g ∙ ap some same),
            remove_ticket-IsValid _ _ (remove_ticket-IsValid _ _ v),
            λ u. ground (
              arith,
              lookup-remove_ticket pair.second.user_id u (remove_ticket pair.first.user_id q),
              lookup-remove_ticket pair.first.user_id u q,
            ),
          )
  ]

  -- Without a pair the queue is as it was.
  pub try_match-none : (try_match now q).1 ≡ none → (try_match now q).0 ≡ q
  unfolding try_match
  try_match-none e = ground (arith, e)

pub size-remove_ticket :
    (w : ℕ) (q : MatchQueue) (t : MatchTicket)
    → lookup w q.tickets_by_user_id ≡ some t
    → size (remove_ticket w q) < size q
unfolding size remove_ticket
size-remove_ticket w q t e = ground (arith, e, length-erase-lt w q.tickets_by_user_id {v = t})

-- Where the three indexes hold the same tickets, a match takes two tickets out of the queue at
-- least.
pub size-try_match :
    (q : MatchQueue) (now : ℕ) (pair : MatchPair)
    → IsValid q
    → (try_match now q).1 ≡ some pair
    → size (try_match now q).0 + 2 ≤ size q
unfolding try_match
size-try_match q now pair v e = elim (Option-cases (match_loop q now q.tickets_by_wait_time)) [
  | inl g ↦ absurd (ground (arith, e, g))
  | inr (p, g) ↦
      let same : p ≡ pair = ground (arith, e, g) in
      let m = match_loop-IsMatch q now v q.tickets_by_wait_time pair (g ∙ ap some same) in
      let second_there : lookup pair.second.user_id
            (remove_ticket pair.first.user_id q).tickets_by_user_id
          ≡ some pair.second =
        ground (
          arith,
          lookup-remove_ticket pair.first.user_id pair.second.user_id q,
          m.candidate.there,
          m.candidate.other,
        ) in
      rw (g, try_match, same)
        (omega (
          arith,
          size-remove_ticket pair.first.user_id q pair.first m.waiting,
          size-remove_ticket pair.second.user_id (remove_ticket pair.first.user_id q) pair.second
              second_there,
        ))
]
