-- ===== src/Server/Fighting/Ending.antt =====
-- What `finishBattle` of server/game/GameServer.cc leaves.
use mathlib.Core.Option
use arena_game.Prelude.{
  ℕ, ◌≡◌, ◌⊎◌, refl, none, some, if◌then◌else◌, inl, inr, Option-cases, ◌==◌, nat_eq, arith,
}
use arena_game.Prelude.Map.{lookup-erase}
use arena_game.Game.Session.{
  PlayerSession, SessionService, find_connection_by_user_id, find_by_connection, mark_in_room,
  clear_room,
}
use arena_game.Game.Session.Invariant as Sessions
use arena_game.Game.Session.Lookups.{find_by_connection-eq, find_by_connection-mark_in_room}
use arena_game.Game.Room as Rooms
use arena_game.Game.Battle as Battles
use arena_game.Game.Battle.{BattleState}
use arena_game.Server.State.{GameServer, World}
use arena_game.Server.Fighting.{
  finish_battle, close_battle, rate_players, send_battle_result_notification,
}
use arena_game.Server.Invariant.{IsValid}
use arena_game.Server.Invariant.Parts.{rated-IsValid, finish_battle-IsValid}

find_by_connection-clear_room :
    (t : SessionService)
    → Sessions.IsValid t
    → (u c : ℕ)
    → find_by_connection c (clear_room u t)
      ≡ Option.map
          (λ p. if p.user_id == u then record p { room_id = 0 } else p)
          (find_by_connection c t)
unfolding clear_room mark_in_room
find_by_connection-clear_room t v u c = find_by_connection-mark_in_room t v u 0 c

closed :
    (b : BattleState) (w : World) (s : GameServer)
    → IsValid s
    → let t : GameServer = finish_battle b w s in
      (Rooms.find b.room_id t.rooms ≡ none)
      × (Battles.find b.room_id t.battles ≡ none)
      × ((c : ℕ) (p : PlayerSession)
          → find_by_connection c t.sessions ≡ some p
          → (p.user_id ≡ b.first_user_id) ⊎ (p.user_id ≡ b.second_user_id)
          → p.room_id ≡ 0)
unfolding finish_battle close_battle
closed b w s v =
    let first_conn : ℕ = find_connection_by_user_id b.first_user_id s.sessions in
    let second_conn : ℕ = find_connection_by_user_id b.second_user_id s.sessions in
    let told : GameServer = send_battle_result_notification b (
      rate_players b w first_conn second_conn (find_by_connection first_conn s.sessions)
        (find_by_connection second_conn s.sessions) s) in
    let v' : IsValid told = rated-IsValid b w s v in
    (
      unfold Rooms.find Rooms.remove in
          ground (arith, lookup-erase b.room_id b.room_id told.rooms.rooms),
      unfold Battles.find Battles.remove in
          ground (arith, lookup-erase b.room_id b.room_id told.battles),
      λ c p e m. ground (
        arith,
        e,
        m,
        find_by_connection-clear_room (clear_room b.first_user_id told.sessions)
            (Sessions.clear_room-IsValid b.first_user_id told.sessions v'.sessions_valid)
            b.second_user_id c,
        find_by_connection-clear_room told.sessions v'.sessions_valid b.first_user_id c,
      ),
    )

-- The room of a user's session, 0 where there is no session.
abbrev pub room_of : ℕ → SessionService → ℕ
room_of u t = elim (find_by_connection (find_connection_by_user_id u t) t) [
  | none ↦ 0
  | some p ↦ p.room_id
]

room_of-zero :
    (u : ℕ) (t : SessionService)
    → Sessions.IsValid t
    → ((c : ℕ) (p : PlayerSession)
        → find_by_connection c t ≡ some p
        → p.user_id ≡ u
        → p.room_id ≡ 0)
    → room_of u t ≡ 0
room_of-zero u t v free =
    let c : ℕ = find_connection_by_user_id u t in
    elim (Option-cases (find_by_connection c t)) [
      | inl e ↦ rw (e, room_of) refl
      | inr (p, e) ↦
          let listed = v.forth c p (unfold find_by_connection in e) in
          let own : p.user_id ≡ u =
            unfold find_by_connection in
            ground (arith, e, listed.connected, find_by_connection-eq t v u) in
          rw (e, room_of) (free c p e own)
    ]

-- Where the services are valid, after `finishBattle` the room and the battle are gone, and neither
-- player of the battle is in a room.
pub finish_battle_lem :
    (b : BattleState) (w : World) (s : GameServer)
    → IsValid s
    → let t : GameServer = finish_battle b w s in
      (Rooms.find b.room_id t.rooms ≡ none)
      × (Battles.find b.room_id t.battles ≡ none)
      × (room_of b.first_user_id t.sessions ≡ 0)
      × (room_of b.second_user_id t.sessions ≡ 0)
finish_battle_lem b w s v =
    let valid = finish_battle-IsValid b w s v in
    let (no_room, no_battle, free) = closed b w s v in
    (
      no_room,
      no_battle,
      room_of-zero b.first_user_id _ valid.sessions_valid (λ c p e m. free c p e (inl m)),
      room_of-zero b.second_user_id _ valid.sessions_valid (λ c p e m. free c p e (inr m)),
    )
