-- ===== src/Server/Invariant/Parts.antt =====
-- What the helpers of server/game/GameServer.cc keep: what is sent changes no service.
use arena_game.Prelude.{
  ℕ, refl, Bool, true, false, Option, none, some, if◌then◌else◌, inl, inr, Option-cases, ◌==◌,
  nat_eq,
}
use arena_game.Wire.Protocol.{MsgType}
use arena_game.Wire.Stream.{Writer}
use arena_game.Prelude.Map.{lookup}
use arena_game.Game.Room.Invariant as Rooms
use arena_game.Game.Session.Invariant as Sessions
use arena_game.Game.Battle.Invariant as Battles
use arena_game.Game.MatchQueue.Invariant as Queue
use arena_game.Game.Session.{
  PlayerSession, SessionService, find_connection_by_user_id, find_by_connection,
}
use arena_game.Game.Battle.{BattleState, BattleService}
use arena_game.Game.Account.{AccountRepository}
use arena_game.Game.Room.{RoomService}
use arena_game.Game.MatchQueue.{MatchQueue}
use arena_game.Game.Battle.{BattleEloResult}
use arena_game.Server.State.{
  GameServer, World, Effect, emit, send_to_connection, send_encoded, send_or_shutdown,
}
use arena_game.Server.Fighting.{
  send_battle_state_notification, send_result_to, send_battle_result_notification, rate_sessions,
  rate_players, close_battle, finish_battle, with_elo,
}
use arena_game.Server.Invariant.{IsValid}

pub emit-IsValid : (e : Effect) (s : GameServer) → IsValid s → IsValid (emit e s)
unfolding emit
emit-IsValid e s v = record {
  sessions_valid = v.sessions_valid;
  rooms_valid = v.rooms_valid;
  queue_valid = v.queue_valid;
  battles_valid = v.battles_valid;
}

pub if-IsValid :
    (b : Bool) {s t : GameServer} → IsValid s → IsValid t → IsValid (if b then s else t)
if-IsValid true v w = v
if-IsValid false v w = w

pub send_to_connection-IsValid :
    (c : ℕ) (t : MsgType) (p : Writer) (s : GameServer)
    → IsValid s
    → IsValid (send_to_connection c t p s)
unfolding send_to_connection
send_to_connection-IsValid c t p s v = elim (Option-cases (lookup c s.connections)) [
  | inl e ↦ rw (e, send_to_connection) v
  | inr (d, e) ↦ rw (e, send_to_connection) (if-IsValid _ (emit-IsValid _ s v) (emit-IsValid _ s v))
]

pub send_encoded-IsValid :
    (c : ℕ) (t : MsgType) (p : Option Writer) (s : GameServer)
    → IsValid s
    → IsValid (send_encoded c t p s)
send_encoded-IsValid c t none s v = v
send_encoded-IsValid c t (some p) s v = send_to_connection-IsValid c t p s v

pub send_or_shutdown-IsValid :
    (c : ℕ) (t : MsgType) (p : Option Writer) (s : GameServer)
    → IsValid s
    → IsValid (send_or_shutdown c t p s)
send_or_shutdown-IsValid c t none s v = emit-IsValid _ s v
send_or_shutdown-IsValid c t (some p) s v = send_to_connection-IsValid c t p s v

pub state_notification-IsValid :
    (b : BattleState) (s : GameServer) → IsValid s → IsValid (send_battle_state_notification b s)
unfolding send_battle_state_notification
state_notification-IsValid b s v = send_encoded-IsValid _ _ _ _ (send_encoded-IsValid _ _ _ s v)

send_result_to-IsValid :
    (c : ℕ) (p : Option PlayerSession) (room_id : ℕ) (won : Bool) (s : GameServer)
    → IsValid s
    → IsValid (send_result_to c p room_id won s)
unfolding send_result_to
send_result_to-IsValid c none room_id won s v = v
send_result_to-IsValid c (some p) room_id won s v = send_encoded-IsValid c _ _ s v

result_notification-IsValid :
    (b : BattleState) (s : GameServer) → IsValid s → IsValid (send_battle_result_notification b s)
unfolding send_battle_result_notification
result_notification-IsValid b s v =
    let first_conn : ℕ = find_connection_by_user_id b.first_user_id s.sessions in
    let second_conn : ℕ = find_connection_by_user_id b.second_user_id s.sessions in
    send_result_to-IsValid second_conn (find_by_connection second_conn s.sessions) b.room_id
      (b.winner_user_id == b.second_user_id) _
      (send_result_to-IsValid first_conn (find_by_connection first_conn s.sessions) b.room_id
        (b.winner_user_id == b.first_user_id) s v)

rate_sessions-IsValid :
    (c d : ℕ) (e : BattleEloResult) (r : AccountRepository × Bool) (s : GameServer)
    → IsValid s
    → IsValid (rate_sessions c d e r s)
unfolding rate_sessions
rate_sessions-IsValid c d e (accounts, false) s v = record {
  sessions_valid = v.sessions_valid;
  rooms_valid = v.rooms_valid;
  queue_valid = v.queue_valid;
  battles_valid = v.battles_valid;
}
rate_sessions-IsValid c d e (accounts, true) s v = record {
  sessions_valid =
      Sessions.modify_session-IsValid d (with_elo e.second_elo) _
        (Sessions.modify_session-IsValid c (with_elo e.first_elo) s.sessions v.sessions_valid
          (λ p. refl))
        (λ p. refl);
  rooms_valid = v.rooms_valid;
  queue_valid = v.queue_valid;
  battles_valid = v.battles_valid;
}

rate_players-IsValid :
    (b : BattleState) (w : World) (c d : ℕ) (p q : Option PlayerSession) (s : GameServer)
    → IsValid s
    → IsValid (rate_players b w c d p q s)
unfolding rate_players
rate_players-IsValid b w c d none q s v = v
rate_players-IsValid b w c d (some p) none s v = v
rate_players-IsValid b w c d (some p) (some q) s v = rate_sessions-IsValid c d _ _ s v

close_battle-IsValid : (b : BattleState) (s : GameServer) → IsValid s → IsValid (close_battle b s)
unfolding close_battle
close_battle-IsValid b s v = record {
  sessions_valid =
      Sessions.clear_room-IsValid b.second_user_id _
        (Sessions.clear_room-IsValid b.first_user_id s.sessions v.sessions_valid);
  rooms_valid = Rooms.remove-IsValid b.room_id s.rooms v.rooms_valid;
  queue_valid = v.queue_valid;
  battles_valid = Battles.remove-IsValid b.room_id s.battles v.battles_valid;
}

-- The server just before `finishBattle` closes the room.
pub rated-IsValid :
    (b : BattleState) (w : World) (s : GameServer)
    → IsValid s
    → let first_conn : ℕ = find_connection_by_user_id b.first_user_id s.sessions in
      let second_conn : ℕ = find_connection_by_user_id b.second_user_id s.sessions in
      IsValid (
        send_battle_result_notification b (
          rate_players b w first_conn second_conn
            (find_by_connection first_conn s.sessions)
            (find_by_connection second_conn s.sessions)
            s))
rated-IsValid b w s v = result_notification-IsValid b _ (rate_players-IsValid b w _ _ _ _ s v)

pub finish_battle-IsValid :
    (b : BattleState) (w : World) (s : GameServer) → IsValid s → IsValid (finish_battle b w s)
unfolding finish_battle
finish_battle-IsValid b w s v = close_battle-IsValid b _ (rated-IsValid b w s v)

-- A server with one service changed.
pub with_sessions :
    (t : SessionService) (s : GameServer)
    → Sessions.IsValid t
    → IsValid s
    → IsValid (record s { sessions = t })
with_sessions t s w v = record {
  sessions_valid = w;
  rooms_valid = v.rooms_valid;
  queue_valid = v.queue_valid;
  battles_valid = v.battles_valid;
}

pub with_accounts :
    (t : AccountRepository) (s : GameServer) → IsValid s → IsValid (record s { accounts = t })
with_accounts t s v = record {
  sessions_valid = v.sessions_valid;
  rooms_valid = v.rooms_valid;
  queue_valid = v.queue_valid;
  battles_valid = v.battles_valid;
}

pub with_rooms :
    (t : RoomService) (s : GameServer)
    → Rooms.IsValid t
    → IsValid s
    → IsValid (record s { rooms = t })
with_rooms t s w v = record {
  sessions_valid = v.sessions_valid;
  rooms_valid = w;
  queue_valid = v.queue_valid;
  battles_valid = v.battles_valid;
}

pub with_queue :
    (t : MatchQueue) (s : GameServer)
    → Queue.IsValid t
    → IsValid s
    → IsValid (record s { match_queue = t })
with_queue t s w v = record {
  sessions_valid = v.sessions_valid;
  rooms_valid = v.rooms_valid;
  queue_valid = w;
  battles_valid = v.battles_valid;
}

pub with_battles :
    (t : BattleService) (s : GameServer)
    → Battles.IsValid t
    → IsValid s
    → IsValid (record s { battles = t })
with_battles t s w v = record {
  sessions_valid = v.sessions_valid;
  rooms_valid = v.rooms_valid;
  queue_valid = v.queue_valid;
  battles_valid = w;
}
