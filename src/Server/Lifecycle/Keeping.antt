-- ===== src/Server/Lifecycle/Keeping.antt =====
-- What the end of a battle or of a room leaves alone in server/game/GameServer.cc.
use arena_game.Prelude.{
  ℕ, ◌≡◌, refl, ◌∙◌, Bool, true, false, Option, none, some, if◌then◌else◌, inl, inr, Option-cases,
  ◌==◌, nat_eq, arith,
}
use arena_game.Wire.Protocol.{MsgType}
use arena_game.Wire.Stream.{Writer}
use arena_game.Game.Account.{AccountRepository}
use arena_game.Game.Session.{
  PlayerSession, SessionService, find_connection_by_user_id, find_by_connection, modify_session,
  clear_room,
}
use arena_game.Game.Battle.{BattleState, BattleEloResult, BattleService, BattleActionResult}
use arena_game.Game.Battle as B
use arena_game.Game.Room as R
use arena_game.Game.Room.{Room}
use arena_game.Server.State.{GameServer, World, emit, send_to_connection, send_encoded}
use arena_game.Server.Fighting.{
  send_result_to, send_battle_result_notification, rate_sessions, rate_players, close_battle,
  finish_battle,
}
use arena_game.Server.Lifecycle.{close_room, answer_forfeit, leave_room}

-- The queue, the open connections and who is logged in are as they were.
pub record Keeps (s t : GameServer) : Type 0 where
  pub same_queue : t.match_queue ≡ s.match_queue
  pub same_connections : t.connections ≡ s.connections
  pub same_users : t.sessions.connection_by_user_id ≡ s.sessions.connection_by_user_id

Keeps-trans : {r s t : GameServer} → Keeps r s → Keeps s t → Keeps r t
Keeps-trans p q = record {
  same_queue = q.same_queue ∙ p.same_queue;
  same_connections = q.same_connections ∙ p.same_connections;
  same_users = q.same_users ∙ p.same_users;
}

Keeps-refl : (s : GameServer) → Keeps s s
Keeps-refl s = record { same_queue = refl; same_connections = refl; same_users = refl }

send_encoded-Keeps :
    (c : ℕ) (t : MsgType) (p : Option Writer) (s : GameServer) → Keeps s (send_encoded c t p s)
unfolding send_to_connection emit
send_encoded-Keeps c t none s = Keeps-refl s
send_encoded-Keeps c t (some p) s = record {
  same_queue = ground arith;
  same_connections = ground arith;
  same_users = ground arith;
}

send_result_to-Keeps :
    (c : ℕ) (p : Option PlayerSession) (room_id : ℕ) (won : Bool) (s : GameServer)
    → Keeps s (send_result_to c p room_id won s)
unfolding send_result_to
send_result_to-Keeps c none room_id won s = Keeps-refl s
send_result_to-Keeps c (some p) room_id won s = send_encoded-Keeps c _ _ s

result_notification-Keeps :
    (b : BattleState) (s : GameServer) → Keeps s (send_battle_result_notification b s)
unfolding send_battle_result_notification
result_notification-Keeps b s =
    let first_conn : ℕ = find_connection_by_user_id b.first_user_id s.sessions in
    let second_conn : ℕ = find_connection_by_user_id b.second_user_id s.sessions in
    Keeps-trans
      (send_result_to-Keeps first_conn (find_by_connection first_conn s.sessions) b.room_id
        (b.winner_user_id == b.first_user_id) s)
      (send_result_to-Keeps second_conn (find_by_connection second_conn s.sessions) b.room_id
        (b.winner_user_id == b.second_user_id) _)

modify_session-users :
    (c : ℕ) (f : PlayerSession → PlayerSession) (t : SessionService)
    → (modify_session c f t).connection_by_user_id ≡ t.connection_by_user_id
unfolding modify_session
modify_session-users c f t = ground arith

clear_room-users :
    (u : ℕ) (t : SessionService) → (clear_room u t).connection_by_user_id ≡ t.connection_by_user_id
unfolding clear_room
clear_room-users u t = ground (arith, modify_session-users (find_connection_by_user_id u t) _ t)

rate_sessions-Keeps :
    (c d : ℕ) (e : BattleEloResult) (r : AccountRepository × Bool) (s : GameServer)
    → Keeps s (rate_sessions c d e r s)
unfolding rate_sessions
rate_sessions-Keeps c d e (accounts, false) s = record {
  same_queue = refl;
  same_connections = refl;
  same_users = refl;
}
rate_sessions-Keeps c d e (accounts, true) s = record {
  same_queue = refl;
  same_connections = refl;
  same_users = modify_session-users d _ _ ∙ modify_session-users c _ s.sessions;
}

rate_players-Keeps :
    (b : BattleState) (w : World) (c d : ℕ) (p q : Option PlayerSession) (s : GameServer)
    → Keeps s (rate_players b w c d p q s)
unfolding rate_players
rate_players-Keeps b w c d none q s = Keeps-refl s
rate_players-Keeps b w c d (some p) none s = Keeps-refl s
rate_players-Keeps b w c d (some p) (some q) s = rate_sessions-Keeps c d _ _ s

close_battle-Keeps : (b : BattleState) (s : GameServer) → Keeps s (close_battle b s)
unfolding close_battle
close_battle-Keeps b s = record {
  same_queue = refl;
  same_connections = refl;
  same_users = clear_room-users b.second_user_id _ ∙ clear_room-users b.first_user_id s.sessions;
}

pub finish_battle-Keeps :
    (b : BattleState) (w : World) (s : GameServer) → Keeps s (finish_battle b w s)
unfolding finish_battle
finish_battle-Keeps b w s =
    let first_conn : ℕ = find_connection_by_user_id b.first_user_id s.sessions in
    let second_conn : ℕ = find_connection_by_user_id b.second_user_id s.sessions in
    Keeps-trans
      (rate_players-Keeps b w first_conn second_conn (find_by_connection first_conn s.sessions)
        (find_by_connection second_conn s.sessions) s)
      (Keeps-trans (result_notification-Keeps b _) (close_battle-Keeps b _))

close_room-Keeps :
    (room_id user_id : ℕ) (room : Room) (s : GameServer)
    → Keeps s (close_room room_id user_id room s)
unfolding close_room
close_room-Keeps room_id user_id room s =
    let opponent : ℕ =
      if room.first_user_id == user_id then room.second_user_id else room.first_user_id in
    let k = send_encoded-Keeps (find_connection_by_user_id opponent s.sessions) _ _ s in
    record {
      same_queue = k.same_queue;
      same_connections = k.same_connections;
      same_users = clear_room-users opponent _ ∙ k.same_users;
    }

if-Keeps :
    (b : Bool) (s : GameServer) {t u : GameServer}
    → Keeps s t
    → Keeps s u
    → Keeps s (if b then t else u)
if-Keeps true s p q = p
if-Keeps false s p q = q

answer_forfeit-Keeps :
    (r : BattleService × BattleActionResult) (w : World) (s : GameServer)
    → Keeps s (answer_forfeit r w s)
unfolding answer_forfeit
answer_forfeit-Keeps (t, action) w s =
    let k : Keeps s (record s { battles = t }) = record {
      same_queue = refl;
      same_connections = refl;
      same_users = refl;
    } in
    if-Keeps action.accepted s (Keeps-trans k (finish_battle-Keeps action.state w _)) k

-- A player who leaves takes the room along, and nothing else so far.
pub leave_room-Keeps :
    (room_id user_id : ℕ) (w : World) (s : GameServer) → Keeps s (leave_room room_id user_id w s)
unfolding leave_room
leave_room-Keeps room_id user_id w s = elim (Option-cases (B.find room_id s.battles)) [
  | inr (b, e) ↦
      rw (e, leave_room)
        (if-Keeps (room_id == 0) s (Keeps-refl s)
          (answer_forfeit-Keeps (B.forfeit room_id user_id s.battles) w s))
  | inl e ↦ elim (Option-cases (R.find room_id s.rooms)) [
    | inl f ↦ rw (e, f, leave_room) (if-Keeps (room_id == 0) s (Keeps-refl s) (Keeps-refl s))
    | inr (room, f) ↦
        rw (e, f, leave_room)
          (if-Keeps (room_id == 0) s (Keeps-refl s) (close_room-Keeps room_id user_id room s))
  ]
]
