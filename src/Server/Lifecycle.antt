-- ===== src/Server/Lifecycle.antt =====
-- server/game/GameServer.cc: `onConnection`, for a connection that opens and one that closes.
pub mod Keeping
pub mod Departure
use arena_game.Prelude.{
  ℕ, Bool, true, false, not, Option, none, some, List, [], ◌==◌, nat_eq, if◌then◌else◌,
}
use arena_game.Prelude.Map.{insert, erase}
use arena_game.Prelude.Text.{text}
use arena_game.Wire.Protocol.{msg_room_closed_ntf}
use arena_game.Wire.Messages.{RoomClosedNotification}
use arena_game.Wire.Messages.Matching.{encode_room_closed}
use arena_game.Game.Session.{
  PlayerSession, SessionService, find_by_connection, find_connection_by_user_id, clear_room,
}
use arena_game.Game.Session as Sessions
use arena_game.Game.Room as Rooms
use arena_game.Game.Room.{Room}
use arena_game.Game.Battle as Battles
use arena_game.Game.Battle.{BattleState, BattleService, BattleActionResult, forfeit}
use arena_game.Game.Matchmaking.{cancel}
use arena_game.Server.State.{GameServer, World, send_encoded}
use arena_game.Server.Fighting.{finish_battle}

-- A connection that opens.
unfoldable pub connect : ℕ → GameServer → GameServer
connect conn_id s = record s { connections = insert conn_id conn_id s.connections }

-- The room of a player who leaves before the battle.
unfoldable pub close_room : ℕ → ℕ → Room → GameServer → GameServer
close_room room_id user_id room s =
    let opponent =
      if room.first_user_id == user_id then room.second_user_id else room.first_user_id in
    let opponent_conn = find_connection_by_user_id opponent s.sessions in
    let told =
      send_encoded opponent_conn msg_room_closed_ntf
        (encode_room_closed (record { room_id = room_id; reason = text "Opponent disconnected" })
          [])
        s in
    record told {
      sessions = clear_room opponent told.sessions;
      rooms = (Rooms.remove room_id told.rooms).0;
    }

-- A leaving player's battle, after `forfeit`.
unfoldable pub answer_forfeit : BattleService × BattleActionResult → World → GameServer → GameServer
answer_forfeit (battles, action) world s =
    if action.accepted
    then finish_battle action.state world (record s { battles = battles })
    else record s { battles = battles }

-- What becomes of the room of a player who leaves.
unfoldable pub leave_room : ℕ → ℕ → World → GameServer → GameServer
unfolding close_room answer_forfeit
leave_room room_id user_id world s =
    if room_id == 0 then s else elim (Battles.find room_id s.battles) [
      | some battle ↦ answer_forfeit (forfeit room_id user_id s.battles) world s
      | none ↦ elim (Rooms.find room_id s.rooms) [
        | none ↦ s
        | some room ↦ close_room room_id user_id room s
      ]
    ]

-- A leaving player's session is given up: the queue first, then the room.
unfoldable pub leave : Option PlayerSession → World → GameServer → GameServer
unfolding leave_room
leave none world s = s
leave (some session) world s =
    leave_room session.room_id session.user_id world
      (record s { match_queue = (cancel session.user_id s.match_queue).0 })

-- The end of `onConnection` for a connection that closes.
unfoldable pub forget : ℕ → GameServer → GameServer
forget conn_id s = record s {
  sessions = Sessions.remove conn_id s.sessions;
  connections = erase conn_id s.connections;
}

unfoldable pub disconnect : ℕ → World → GameServer → GameServer
unfolding leave forget
disconnect conn_id world s = forget conn_id (leave (find_by_connection conn_id s.sessions) world s)

unfoldable pub on_connection : ℕ → Bool → World → GameServer → GameServer
unfolding connect disconnect
on_connection conn_id connected world s =
    if connected then connect conn_id s else disconnect conn_id world s
