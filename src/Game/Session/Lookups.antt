-- ===== src/Game/Session/Lookups.antt =====
-- What the lookups of server/game/SessionService.cc answer after each operation.
use mathlib.Core.Option
use arena_game.Prelude.{
  ℕ, ◌<◌, ◌≡◌, ◌≢◌, ◌↔◌, ap, none, some, true, arith, if◌then◌else◌, inl, inr, Option-cases, ◌==◌,
  nat_eq,
}
use arena_game.Prelude.Map.{lookup, lookup-insert, lookup-erase}
use arena_game.Game.Session.{
  PlayerSession, SessionService, bind, remove, mark_in_room, find_by_connection,
  find_connection_by_user_id,
}
use arena_game.Game.Session.Invariant.{IsValid, user_at}

module _ (s : SessionService) (v : IsValid s) where
  -- No user is logged in on two connections.
  pub one_connection :
      (c d : ℕ) (p q : PlayerSession)
      → find_by_connection c s ≡ some p
      → find_by_connection d s ≡ some q
      → p.user_id ≡ q.user_id
      → c ≡ d
  unfolding find_by_connection
  one_connection c d p q hc hd e = ground (arith, (v.forth c p hc).listed, (v.forth d q hd).listed)

  -- The two lookups agree: a connection's session names the user whose connection it is.
  pub find_connection_by_user_id-eq :
      (c : ℕ) (p : PlayerSession)
      → find_by_connection c s ≡ some p
      → find_connection_by_user_id p.user_id s ≡ c
  unfolding find_by_connection find_connection_by_user_id
  find_connection_by_user_id-eq c p h = ground (arith, (v.forth c p h).listed)

  pub find_by_connection-eq :
      (u : ℕ)
      → find_connection_by_user_id u s ≢ 0
      → user_at (find_connection_by_user_id u s) s ≡ some u
  unfolding find_connection_by_user_id
  find_by_connection-eq u h = elim (Option-cases (lookup u s.connection_by_user_id)) [
    | inl e ↦ ground arith
    | inr (c, e) ↦ ground (arith, v.back u c e)
  ]

  no_user_zero : (c : ℕ) → lookup c s.connection_by_user_id ≡ some 0 → ⊥
  no_user_zero u e = elim (Option-cases (lookup 0 s.sessions_by_connection)) [
    | inl g ↦ ground (arith, v.back u 0 e)
    | inr (p, g) ↦ omega (arith, (v.forth 0 p g).connected)
  ]

  -- Where the two maps are inverse to one another, `bind` accepts exactly a connection and a user
  -- that are not 0, the connection without a session and the user without a connection.
  pub bind-accepts :
      (c : ℕ) (p : PlayerSession)
      → ((bind c p s).1 ≡ true) ↔ (
          (0 < c)
          × (0 < p.user_id)
          × (find_by_connection c s ≡ none)
          × (find_connection_by_user_id p.user_id s ≡ 0))
  unfolding bind find_by_connection find_connection_by_user_id
  bind-accepts c p = elim (Option-cases (lookup p.user_id s.connection_by_user_id)) [
    | inl e ↦ (
      λ h. (ground arith, ground arith, ground arith, ground arith),
      λ (a, b, f, g). ground arith,
    )
    | inr (d, e) ↦ (
      λ h. absurd (ground arith),
      λ (a, b, f, g).
          let z : lookup p.user_id s.connection_by_user_id ≡ some 0 = ground arith in
          absurd (no_user_zero p.user_id z),
    )
  ]

  -- Where the two maps are inverse to one another, `markInRoom` sets the room of that user's
  -- session and changes no other session.
  pub find_by_connection-mark_in_room :
      (u room_id c : ℕ)
      → find_by_connection c (mark_in_room u room_id s)
        ≡ Option.map
            (λ p. if p.user_id == u then record p { room_id = room_id } else p)
            (find_by_connection c s)
  unfolding find_by_connection mark_in_room
  find_by_connection-mark_in_room u room_id c =
      elim (Option-cases (lookup u s.connection_by_user_id)) [
        | inl e ↦ elim (Option-cases (lookup c s.sessions_by_connection)) [
          | inl g ↦ ground (arith, e, g)
          | inr (p, g) ↦ ground (arith, e, g, (v.forth c p g).listed)
        ]
        | inr (d, e) ↦ elim (Option-cases (lookup d s.sessions_by_connection)) [
          | inl g ↦ absurd (ground (arith, g, v.back u d e))
          | inr (q, g) ↦ elim (Option-cases (lookup c s.sessions_by_connection)) [
            | inl g' ↦ ground (
              arith,
              e,
              g,
              g',
              (v.forth d q g).connected,
              lookup-insert d c (record q { room_id = room_id }) s.sessions_by_connection,
            )
            | inr (p, g') ↦ ground (
              arith,
              e,
              g,
              g',
              v.back u d e,
              (v.forth d q g).connected,
              (v.forth c p g').listed,
              lookup-insert d c (record q { room_id = room_id }) s.sessions_by_connection,
            )
          ]
        ]
      ]

  -- After a logout the connection has no session, and other users keep theirs.
  pub find_by_connection-remove :
      (c d : ℕ)
      → find_by_connection d (remove c s) ≡ (if c == d then none else find_by_connection d s)
  unfolding find_by_connection remove
  find_by_connection-remove c d = elim (Option-cases (lookup c s.sessions_by_connection)) [
    | inl e ↦ ground (arith, e, ap (λ (k : ℕ). lookup k s.sessions_by_connection))
    | inr (p, e) ↦ ground (arith, e, lookup-erase c d s.sessions_by_connection)
  ]

  -- Where the two maps are inverse to one another, after `remove` the user of that connection has
  -- none, and every other user has the connection as before.
  pub find_connection_by_user_id-remove :
      (c u : ℕ)
      → find_connection_by_user_id u (remove c s)
        ≡ (if find_connection_by_user_id u s == c then 0 else find_connection_by_user_id u s)
  unfolding find_connection_by_user_id remove
  find_connection_by_user_id-remove c u = elim (Option-cases (lookup c s.sessions_by_connection)) [
    | inl e ↦ elim (Option-cases (lookup u s.connection_by_user_id)) [
      | inl g ↦ ground (arith, e, g)
      | inr (d, g) ↦ ground (arith, e, g, v.back u d g)
    ]
    | inr (p, e) ↦ elim (Option-cases (lookup u s.connection_by_user_id)) [
      | inl g ↦
          ground
            (arith, e, g, lookup-erase p.user_id u s.connection_by_user_id, (v.forth c p e).listed)
      | inr (d, g) ↦ ground (
        arith,
        e,
        g,
        v.back u d g,
        lookup-erase p.user_id u s.connection_by_user_id,
        (v.forth c p e).listed,
      )
    ]
  ]
