-- ===== src/Game/Session.antt =====
-- server/game/SessionService.h and SessionService.cc: who is logged in on which connection.
pub mod Invariant
pub mod Lookups
use arena_game.Prelude.{
  ℕ, Bool, true, false, not, ◌||◌, Option, none, some, [], ◌==◌, nat_eq, if◌then◌else◌,
}
use arena_game.Prelude.Map.{Map, lookup, insert, erase}
use arena_game.Wire.Stream.{Bytes}

pub record PlayerSession : Type 0 where
  pub user_id : ℕ
  pub user_name : Bytes
  pub elo : ℕ
  pub room_id : ℕ

pub record SessionService : Type 0 where
  pub sessions_by_connection : Map ℕ PlayerSession
  pub connection_by_user_id : Map ℕ ℕ

abbrev pub empty_session_service : SessionService
empty_session_service = record { sessions_by_connection = []; connection_by_user_id = [] }

-- `find(...) != end()`
abbrev pub is_key {ℓ} : {V : Type ℓ} → ℕ → Map ℕ V → Bool
is_key k m = elim (lookup k m) [ none ↦ false | some _ ↦ true ]

unfoldable pub bind : ℕ → PlayerSession → SessionService → SessionService × Bool
bind connection_id session s =
    if connection_id == 0
      || session.user_id == 0
      || is_key connection_id s.sessions_by_connection
      || is_key session.user_id s.connection_by_user_id
    then (s, false)
    else (
      record {
        sessions_by_connection = insert connection_id session s.sessions_by_connection;
        connection_by_user_id = insert session.user_id connection_id s.connection_by_user_id;
      },
      true,
    )

-- The part of `remove` that forgets the user's connection.
unfoldable pub forget_user : ℕ → ℕ → Map ℕ ℕ → Map ℕ ℕ
forget_user connection_id user_id m = elim (lookup user_id m) [
  | none ↦ m
  | some c ↦ if c == connection_id then erase user_id m else m
]

unfoldable pub remove : ℕ → SessionService → SessionService
unfolding forget_user
remove connection_id s = elim (lookup connection_id s.sessions_by_connection) [
  | none ↦ s
  | some session ↦ record {
    sessions_by_connection = erase connection_id s.sessions_by_connection;
    connection_by_user_id = forget_user connection_id session.user_id s.connection_by_user_id;
  }
]

unfoldable pub find_by_connection : ℕ → SessionService → Option PlayerSession
find_by_connection connection_id s = lookup connection_id s.sessions_by_connection

-- 0 is no connection.
unfoldable pub find_connection_by_user_id : ℕ → SessionService → ℕ
find_connection_by_user_id user_id s = elim (lookup user_id s.connection_by_user_id) [
  | none ↦ 0
  | some connection_id ↦ connection_id
]

-- A write through the pointer that `findByConnection` returns.
unfoldable pub modify_session :
    ℕ → (PlayerSession → PlayerSession) → SessionService → SessionService
modify_session connection_id f s = elim (lookup connection_id s.sessions_by_connection) [
  | none ↦ s
  | some session ↦ record s {
    sessions_by_connection = insert connection_id (f session) s.sessions_by_connection;
  }
]

unfoldable pub mark_in_room : ℕ → ℕ → SessionService → SessionService
unfolding find_connection_by_user_id modify_session
mark_in_room user_id room_id s =
    let connection_id = find_connection_by_user_id user_id s in
    if connection_id == 0
    then s
    else modify_session connection_id (λ session. record session { room_id = room_id }) s

unfoldable pub clear_room : ℕ → SessionService → SessionService
unfolding find_connection_by_user_id modify_session
clear_room user_id s =
    let connection_id = find_connection_by_user_id user_id s in
    if connection_id == 0
    then s
    else modify_session connection_id (λ session. record session { room_id = 0 }) s
