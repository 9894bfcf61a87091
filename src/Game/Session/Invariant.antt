-- ===== src/Game/Session/Invariant.antt =====
-- The two maps of server/game/SessionService.cc stay inverse to one another.
use arena_game.Prelude.{
  ℕ, ◌<◌, ◌≡◌, refl, Option, some, Bool, true, false, arith, if◌then◌else◌, inl, inr, Option-cases,
  ◌==◌, nat_eq,
}
use arena_game.Prelude.Map.{lookup, lookup-insert, lookup-erase}
use mathlib.Core.Option
use arena_game.Game.Session.{
  PlayerSession, SessionService, empty_session_service, bind, remove, modify_session, mark_in_room,
  clear_room, find_connection_by_user_id,
}

-- The user of a connection.
abbrev pub user_at : ℕ → SessionService → Option ℕ
user_at c s = Option.map (λ p. p.user_id) (lookup c s.sessions_by_connection)

-- A session is listed under its user, and on a proper connection.
pub record IsListed (s : SessionService) (c : ℕ) (p : PlayerSession) : Type 0 where
  pub connected : 0 < c
  pub known : 0 < p.user_id
  pub listed : lookup p.user_id s.connection_by_user_id ≡ some c

pub record IsValid (s : SessionService) : Type 0 where
  pub forth :
      (c : ℕ) (p : PlayerSession) → lookup c s.sessions_by_connection ≡ some p → IsListed s c p
  pub back : (u c : ℕ) → lookup u s.connection_by_user_id ≡ some c → user_at c s ≡ some u

pub empty-IsValid : IsValid empty_session_service
unfolding lookup
empty-IsValid = record { forth = λ c p e. cc; back = λ u c e. cc }

module _ (c : ℕ) (p : PlayerSession) (s : SessionService) (v : IsValid s) where
  bind-forth :
      (d : ℕ) (q : PlayerSession)
      → lookup d (bind c p s).0.sessions_by_connection ≡ some q
      → IsListed (bind c p s).0 d q
  unfolding bind
  bind-forth d q e = ground (
    arith,
    e,
    v.forth d q,
    lookup-insert c d p s.sessions_by_connection,
    lookup-insert p.user_id q.user_id c s.connection_by_user_id,
  )

  bind-back :
      (u d : ℕ)
      → lookup u (bind c p s).0.connection_by_user_id ≡ some d
      → user_at d (bind c p s).0 ≡ some u
  unfolding bind
  bind-back u d e = ground (
    arith,
    e,
    v.back u d,
    lookup-insert c d p s.sessions_by_connection,
    lookup-insert p.user_id u c s.connection_by_user_id,
  )

  pub bind-IsValid : IsValid (bind c p s).0
  bind-IsValid = record { forth = bind-forth; back = bind-back }

module _ (c : ℕ) (s : SessionService) (v : IsValid s) where
  remove-forth :
      (d : ℕ) (q : PlayerSession)
      → lookup d (remove c s).sessions_by_connection ≡ some q
      → IsListed (remove c s) d q
  unfolding remove
  remove-forth d q e = elim (Option-cases (lookup c s.sessions_by_connection)) [
    | inl gone ↦ ground (arith, e, v.forth d q)
    | inr (p, found) ↦ ground (
      arith,
      e,
      v.forth d q,
      v.forth c p found,
      lookup-erase c d s.sessions_by_connection,
      lookup-erase p.user_id q.user_id s.connection_by_user_id,
    )
  ]

  remove-back :
      (u d : ℕ)
      → lookup u (remove c s).connection_by_user_id ≡ some d
      → user_at d (remove c s) ≡ some u
  unfolding remove
  remove-back u d e = elim (Option-cases (lookup c s.sessions_by_connection)) [
    | inl gone ↦ ground (arith, e, v.back u d)
    | inr (p, found) ↦ ground (
      arith,
      e,
      v.back u d,
      v.forth c p found,
      lookup-erase c d s.sessions_by_connection,
      lookup-erase p.user_id u s.connection_by_user_id,
    )
  ]

  pub remove-IsValid : IsValid (remove c s)
  remove-IsValid = record { forth = remove-forth; back = remove-back }

-- A write that leaves the user alone.
module _ (c : ℕ) (f : PlayerSession → PlayerSession) (s : SessionService) (v : IsValid s)
    (same : (p : PlayerSession) → (f p).user_id ≡ p.user_id) where
  modify-forth :
      (d : ℕ) (q : PlayerSession)
      → lookup d (modify_session c f s).sessions_by_connection ≡ some q
      → IsListed (modify_session c f s) d q
  unfolding modify_session
  modify-forth d q e = elim (Option-cases (lookup c s.sessions_by_connection)) [
    | inl gone ↦ ground (arith, e, v.forth d q)
    | inr (p, found) ↦ ground (
      arith,
      e,
      v.forth d q,
      v.forth c p found,
      same p,
      lookup-insert c d (f p) s.sessions_by_connection,
    )
  ]

  modify-back :
      (u d : ℕ)
      → lookup u (modify_session c f s).connection_by_user_id ≡ some d
      → user_at d (modify_session c f s) ≡ some u
  unfolding modify_session
  modify-back u d e = elim (Option-cases (lookup c s.sessions_by_connection)) [
    | inl gone ↦ ground (arith, e, v.back u d)
    | inr (p, found) ↦
        ground (arith, e, v.back u d, same p, lookup-insert c d (f p) s.sessions_by_connection)
  ]

  pub modify_session-IsValid : IsValid (modify_session c f s)
  modify_session-IsValid = record { forth = modify-forth; back = modify-back }

if-IsValid :
    (b : Bool) {s t : SessionService} → IsValid s → IsValid t → IsValid (if b then s else t)
if-IsValid true v w = v
if-IsValid false v w = w

pub mark_in_room-IsValid :
    (u room_id : ℕ) (s : SessionService) → IsValid s → IsValid (mark_in_room u room_id s)
unfolding mark_in_room
mark_in_room-IsValid u room_id s v =
    let c : ℕ = find_connection_by_user_id u s in
    if-IsValid (c == 0) v
      (modify_session-IsValid c (λ p. record p { room_id = room_id }) s v (λ p. refl))

pub clear_room-IsValid : (u : ℕ) (s : SessionService) → IsValid s → IsValid (clear_room u s)
unfolding clear_room mark_in_room
clear_room-IsValid u s v = mark_in_room-IsValid u 0 s v

-- Where the two maps are inverse to one another, for connections and users that are not 0, they
-- still are after any operation.
pub session_operations-IsValid :
    (s : SessionService)
    → IsValid s
    → ((c : ℕ) (p : PlayerSession) → IsValid (bind c p s).0)
      × ((c : ℕ) → IsValid (remove c s))
      × ((u room_id : ℕ) → IsValid (mark_in_room u room_id s))
      × ((u : ℕ) → IsValid (clear_room u s))
session_operations-IsValid s v = (
  λ c p. bind-IsValid c p s v,
  λ c. remove-IsValid c s v,
  λ u room_id. mark_in_room-IsValid u room_id s v,
  λ u. clear_room-IsValid u s v,
)
