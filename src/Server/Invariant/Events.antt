-- ===== src/Server/Invariant/Events.antt =====
-- Input, connections and ticks of server/game/GameServer.cc keep the services in order.
use arena_game.Prelude.{
  ℕ, zero, suc, ◌+◌, ◌-◌, ◌^◌, ◌<◌, ◌≡◌, refl, Bool, ◌||◌, Option, none, some, List, [], ◌∷◌,
  if◌then◌else◌, inl, inr, Option-cases, Bool-cases, ◌==◌, nat_eq, ltb, subst,
}
use arena_game.Wire.Protocol.{header_size, max_frame_size}
use arena_game.Wire.Stream.{reader_of}
use arena_game.Net.Buffer.{Buffer, readable_bytes, peek, retrieve}
use arena_game.Game.Session.{PlayerSession, find_by_connection, find_connection_by_user_id}
use arena_game.Game.Session.Invariant as Sessions
use arena_game.Game.Room as R
use arena_game.Game.Room.{Room}
use arena_game.Game.Room.Invariant as Rooms
use arena_game.Game.Battle as B
use arena_game.Game.Battle.{BattleService, BattleActionResult, forfeit}
use arena_game.Game.Battle.Invariant as Battles
use arena_game.Game.MatchQueue.{size}
use arena_game.Game.Matchmaking.{MatchFoundEvent}
use arena_game.Game.Matchmaking.Ticks.{tick_total}
use arena_game.Game.Matchmaking.Placing as Placing
use arena_game.Game.Matchmaking.Placing.{tick-IsPlaced}
use arena_game.Server.Queueing.{
  notify_sessions, notify_event, notify_events, process_matchmaking_tick, matchmaking,
  with_matchmaking,
}
use arena_game.Server.State.{GameServer, World, emit, shutdown}
use arena_game.Server.Frames.{dispatch, header_of, on_message_loop, on_message}
use arena_game.Server.Lifecycle.{
  connect, close_room, answer_forfeit, leave_room, leave, forget, disconnect, on_connection,
}
use arena_game.Server.Invariant.{IsValid}
use arena_game.Server.Invariant.Parts.{
  emit-IsValid, if-IsValid, send_encoded-IsValid, finish_battle-IsValid, with_queue, with_battles,
}
use arena_game.Server.Invariant.Requests.{cancel-IsValid}
use arena_game.Server.Invariant.Messages.{dispatch-IsValid}

-- What is returned is in order where what was named is.
returned :
    (x r : Buffer × GameServer)
    → IsValid x.1
    → Path (Option (Buffer × GameServer)) (some x) (some r)
    → IsValid r.1
returned x r v e = let same : x ≡ r = cc in subst (λ z. IsValid z.1) same v

on_message_loop-IsValid :
    (fuel : ℕ) (worlds : ℕ → World) (c : ℕ) (buf : Buffer) (s : GameServer)
    (r : Buffer × GameServer)
    → IsValid s
    → on_message_loop fuel worlds c buf s ≡ some r
    → IsValid r.1
unfolding on_message_loop
on_message_loop-IsValid zero worlds c buf s r v e = cc
on_message_loop-IsValid (suc fuel) worlds c buf s r v e =
    let (total_len, msg_type) = header_of buf in
    let body = retrieve header_size buf in
    let payload_len = total_len - header_size in
    let later =
      on_message_loop-IsValid fuel (λ n. worlds (suc n)) c (retrieve payload_len body)
        (dispatch msg_type c (reader_of (peek payload_len body)) (worlds 0) s) r
        (dispatch-IsValid msg_type c (reader_of (peek payload_len body)) (worlds 0) s v) in
    let closed = emit-IsValid (shutdown c) s v in
    elim (Bool-cases (ltb (readable_bytes buf) header_size)) [
      | inl a ↦ returned (buf, s) r v (rw a at e)
      | inr a ↦ elim (Bool-cases (ltb total_len header_size || ltb max_frame_size total_len)) [
        | inl f ↦ returned (buf, emit (shutdown c) s) r closed (rw (a, f) at e)
        | inr f ↦ elim (Bool-cases (ltb (readable_bytes buf) total_len)) [
          | inl g ↦ returned (buf, s) r v (rw (a, f, g) at e)
          | inr g ↦ later (rw (a, f, g) at e)
        ]
      ]
    ]

-- Where the sessions, the rooms, the queue and the battles are valid, they still are after
-- whatever bytes a connection has sent are handled.
pub on_message-IsValid :
    (worlds : ℕ → World) (c : ℕ) (buf : Buffer) (s : GameServer) (r : Buffer × GameServer)
    → IsValid s
    → on_message worlds c buf s ≡ some r
    → IsValid r.1
unfolding on_message
on_message-IsValid worlds c buf s r v e =
    on_message_loop-IsValid (readable_bytes buf + 1) worlds c buf s r v e

close_room-IsValid :
    (room_id user_id : ℕ) (room : Room) (s : GameServer)
    → IsValid s
    → IsValid (close_room room_id user_id room s)
unfolding close_room
close_room-IsValid room_id user_id room s v =
    let opponent : ℕ =
      if room.first_user_id == user_id then room.second_user_id else room.first_user_id in
    let w = send_encoded-IsValid (find_connection_by_user_id opponent s.sessions) _ _ s v in
    record {
      sessions_valid = Sessions.clear_room-IsValid opponent _ w.sessions_valid;
      rooms_valid = Rooms.remove-IsValid room_id _ w.rooms_valid;
      queue_valid = w.queue_valid;
      battles_valid = w.battles_valid;
    }

answer_forfeit-IsValid :
    (r : BattleService × BattleActionResult) (w : World) (s : GameServer)
    → Battles.IsValid r.0
    → IsValid s
    → IsValid (answer_forfeit r w s)
unfolding answer_forfeit
answer_forfeit-IsValid (t, action) w s b v =
    let u = with_battles t s b v in
    if-IsValid action.accepted (finish_battle-IsValid action.state w _ u) u

leave_room-IsValid :
    (room_id user_id : ℕ) (w : World) (s : GameServer)
    → IsValid s
    → IsValid (leave_room room_id user_id w s)
unfolding leave_room
leave_room-IsValid room_id user_id w s v = elim (Option-cases (B.find room_id s.battles)) [
  | inr (b, e) ↦
      rw (e, leave_room)
        (if-IsValid (room_id == 0) v (
          answer_forfeit-IsValid (forfeit room_id user_id s.battles) w s
            (Battles.forfeit-IsValid room_id user_id s.battles v.battles_valid) v))
  | inl e ↦ elim (Option-cases (R.find room_id s.rooms)) [
    | inl f ↦ rw (e, f, leave_room) (if-IsValid (room_id == 0) v v)
    | inr (room, f) ↦
        rw (e, f, leave_room)
          (if-IsValid (room_id == 0) v (close_room-IsValid room_id user_id room s v))
  ]
]

pub leave-IsValid :
    (p : Option PlayerSession) (w : World) (s : GameServer) → IsValid s → IsValid (leave p w s)
unfolding leave
leave-IsValid none w s v = v
leave-IsValid (some p) w s v =
    leave_room-IsValid p.room_id p.user_id w _
      (with_queue _ s (cancel-IsValid p.user_id s.match_queue v.queue_valid) v)

forget-IsValid : (c : ℕ) (s : GameServer) → IsValid s → IsValid (forget c s)
unfolding forget
forget-IsValid c s v = record {
  sessions_valid = Sessions.remove-IsValid c s.sessions v.sessions_valid;
  rooms_valid = v.rooms_valid;
  queue_valid = v.queue_valid;
  battles_valid = v.battles_valid;
}

-- Where the sessions, the rooms, the queue and the battles are valid, they still are after a
-- connection has opened or closed.
pub on_connection-IsValid :
    (c : ℕ) (connected : Bool) (w : World) (s : GameServer)
    → IsValid s
    → IsValid (on_connection c connected w s)
unfolding on_connection disconnect connect
on_connection-IsValid c connected w s v =
    if-IsValid connected
      (record {
        sessions_valid = v.sessions_valid;
        rooms_valid = v.rooms_valid;
        queue_valid = v.queue_valid;
        battles_valid = v.battles_valid;
      })
      (forget-IsValid c _ (leave-IsValid (find_by_connection c s.sessions) w s v))

notify_sessions-IsValid :
    (room_id c d : ℕ) (p q : Option PlayerSession) (s : GameServer)
    → IsValid s
    → IsValid (notify_sessions room_id c d p q s)
unfolding notify_sessions
notify_sessions-IsValid room_id c d none q s v = v
notify_sessions-IsValid room_id c d (some p) none s v = v
notify_sessions-IsValid room_id c d (some p) (some q) s v =
    send_encoded-IsValid d _ _ _ (send_encoded-IsValid c _ _ s v)

notify_event-IsValid :
    (e : MatchFoundEvent) (s : GameServer) → IsValid s → IsValid (notify_event e s)
unfolding notify_event
notify_event-IsValid e s v =
    let first_conn : ℕ = find_connection_by_user_id e.pair.first.user_id s.sessions in
    let second_conn : ℕ = find_connection_by_user_id e.pair.second.user_id s.sessions in
    notify_sessions-IsValid e.room_id first_conn second_conn
      (find_by_connection first_conn s.sessions) (find_by_connection second_conn s.sessions) s v

notify_events-IsValid :
    (events : List MatchFoundEvent) (s : GameServer) → IsValid s → IsValid (notify_events events s)
unfolding notify_events
notify_events-IsValid [] s v = v
notify_events-IsValid (e ∷ events) s v = notify_events-IsValid events _ (notify_event-IsValid e s v)

-- Where the sessions, the rooms, the queue and the battles are valid and the room numbers fit 64
-- bits even with a room for every waiting ticket, a matchmaking tick ends with a result in which
-- they still are valid.
pub process_matchmaking_tick-IsValid :
    (now : ℕ) (s : GameServer)
    → IsValid s
    → s.rooms.next_room_id + size s.match_queue < 2 ^ 64
    → (t : GameServer) × (process_matchmaking_tick now s ≡ some t) × IsValid t
unfolding process_matchmaking_tick
process_matchmaking_tick-IsValid now s v small =
    let ready : Placing.IsValid (matchmaking s) = record {
      queue_valid = v.queue_valid;
      rooms_valid = v.rooms_valid;
      sessions_valid = v.sessions_valid;
    } in
    let ((m, events), e) = tick_total now (matchmaking s) v.queue_valid in
    let (done, placed) = tick-IsPlaced now (matchmaking s) (m, events) ready small e in
    (
      notify_events events (with_matchmaking m s),
      rw (e, process_matchmaking_tick) refl,
      notify_events-IsValid events (with_matchmaking m s) (record {
        sessions_valid = done.sessions_valid;
        rooms_valid = done.rooms_valid;
        queue_valid = done.queue_valid;
        battles_valid = v.battles_valid;
      }),
    )
