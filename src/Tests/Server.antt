-- ===== src/Tests/Server.antt =====
-- The game server of server/game/GameServer.cc at concrete inputs.
use arena_game.Prelude.{ℕ, ◌≡◌, refl, none, some, true, false, List, [], ◌∷◌, ◌++◌, arith, nat_eq}
use arena_game.Prelude.Map.{lookup, insert, emplace, erase}
use arena_game.Prelude.OrderedSet.{set_insert}
use arena_game.Wire.Protocol.{msg_login_req, msg_heartbeat_req}
use arena_game.Wire.Stream.{Bytes, write_bytes, write_u16, write_u32, write_unsigned_loop}
use arena_game.Net.Buffer.{Buffer, make_buffer, append}
use arena_game.Net.Buffer.Contents.{Holds, append-Holds, make_buffer-Holds}
use arena_game.Game.Room as Rooms
use arena_game.Game.Battle as Battles
use arena_game.Game.Battle.{BattleState, initial_state}
use arena_game.Game.Session.{find_by_connection, find_connection_by_user_id, bind}
use arena_game.Game.MatchQueue.{contains, size, join}
use arena_game.Server.State.{GameServer, World, frame}
use arena_game.Server.Frames.{on_message}
use arena_game.Server.Frames.Progress.{on_message_total}
use arena_game.Server.Frames.Delivery.{stream, handle_all, on_message-stream}
use arena_game.Server.Frames.Messages.{Message, Fits, IsPartial}
use arena_game.Server.Fighting.{finish_battle}
use arena_game.Server.Fighting.Ending.{room_of, finish_battle_lem}
use arena_game.Server.Queueing.{process_matchmaking_tick}
use arena_game.Server.Lifecycle.{disconnect, on_connection}
use arena_game.Server.Lifecycle.Departure.{disconnect_lem}
use arena_game.Server.Invariant.{IsValid}
use arena_game.Server.Invariant.Events.{
  on_message-IsValid, on_connection-IsValid, process_matchmaking_tick-IsValid,
}
use arena_game.Tests.Data.{alice, duel, server, server-IsValid, world}

abbrev worlds : ℕ → World
worlds n = world

-- The login of "al" with the password "pw", and a heartbeat.
abbrev login_message : Message
login_message = record {
  msg_type = msg_login_req;
  payload = 2 ∷ (0 ∷ (0 ∷ (0 ∷ (97 ∷ (108 ∷ (2 ∷ (0 ∷ (0 ∷ (0 ∷ (112 ∷ (119 ∷ [])))))))))));
}

abbrev heartbeat : Message
heartbeat = record { msg_type = msg_heartbeat_req; payload = [] }

login_message-Fits : Fits login_message
login_message-Fits = record { type_fits = omega arith; payload_fits = omega arith }

heartbeat-Fits : Fits heartbeat
heartbeat-Fits = record { type_fits = omega arith; payload_fits = omega arith }

-- Two messages, and the first five bytes of a third.
abbrev begun : Bytes
begun = 6 ∷ (0 ∷ (0 ∷ (0 ∷ (1 ∷ []))))

abbrev messages : List Message
messages = login_message ∷ (heartbeat ∷ [])

abbrev input : Buffer
input = append (stream messages ++ begun) (make_buffer 16)

begun-IsPartial : IsPartial heartbeat begun
unfolding frame write_bytes write_u16 write_u32 write_unsigned_loop
begun-IsPartial = record { rest = 0 ∷ []; shape = refl; missing = omega arith }

on_message-stream_example :
    (left : Buffer) × (on_message worlds 7 input server
      ≡ some (left, handle_all worlds 7 messages server))
    × Holds left begun
on_message-stream_example =
    on_message-stream worlds 7 messages heartbeat begun input server
      (login_message-Fits, (heartbeat-Fits, tt)) heartbeat-Fits begun-IsPartial
      (append-Holds (stream messages ++ begun) (make_buffer 16) [] (make_buffer-Holds 16))

on_message_total_example : (r : Buffer × GameServer) × (on_message worlds 7 input server ≡ some r)
on_message_total_example = on_message_total worlds 7 input server

on_message-IsValid_example : IsValid (handle_all worlds 7 messages server)
on_message-IsValid_example =
    on_message-IsValid worlds 7 input server
      (on_message-stream_example.0, handle_all worlds 7 messages server) server-IsValid
      on_message-stream_example.1

on_connection-IsValid_example : IsValid (on_connection 9 false world server)
on_connection-IsValid_example = on_connection-IsValid 9 false world server server-IsValid

two_wait : size server.match_queue ≡ 2
unfolding size join emplace set_insert lookup contains
two_wait = refl

process_matchmaking_tick-IsValid_example :
    (t : GameServer) × (process_matchmaking_tick 10 server ≡ some t) × IsValid t
process_matchmaking_tick-IsValid_example =
    process_matchmaking_tick-IsValid 10 server server-IsValid (omega (arith, two_wait))

alice_online : find_by_connection 7 server.sessions ≡ some alice
unfolding find_by_connection bind lookup insert erase
alice_online = refl

disconnect_lem_example :
    let t : GameServer = disconnect 7 world server in
    (find_by_connection 7 t.sessions ≡ none)
    × (find_connection_by_user_id 1 t.sessions ≡ 0)
    × (lookup 7 t.connections ≡ none)
    × (contains 1 t.match_queue ≡ false)
disconnect_lem_example = disconnect_lem 7 world server alice server-IsValid alice_online

abbrev won : BattleState
won = record (initial_state duel) { finished = true; winner_user_id = 1; active_user_id = 0 }

finish_battle_lem_example :
    let t : GameServer = finish_battle won world server in
    (Rooms.find 1 t.rooms ≡ none)
    × (Battles.find 1 t.battles ≡ none)
    × (room_of 1 t.sessions ≡ 0)
    × (room_of 2 t.sessions ≡ 0)
finish_battle_lem_example = finish_battle_lem won world server server-IsValid
