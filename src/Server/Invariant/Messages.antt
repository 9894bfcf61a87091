-- ===== src/Server/Invariant/Messages.antt =====
-- The message handlers of server/game/GameServer.cc keep the services in order.
use arena_game.Prelude.{
  ℕ, Bool, true, false, not, Option, [], none, some, if◌then◌else◌, inl, inr, Option-cases, ◌==◌,
  nat_eq,
}
use arena_game.Wire.Protocol.{
  MsgType, msg_login_req, msg_register_req, msg_match_join_req, msg_hero_select_req,
  msg_battle_attack_req,
}
use arena_game.Wire.Stream.{Bytes, Reader}
use arena_game.Wire.Stream.Reads.{result}
use arena_game.Wire.Messages.{HeroSelectRequest, HeroSelectResponse}
use arena_game.Wire.Messages.Matching.{decode_hero_select_request, encode_hero_select_response}
use arena_game.Wire.Messages.Battle.{decode_battle_attack_request}
use arena_game.Game.Session.{PlayerSession, SessionService, find_by_connection}
use arena_game.Game.Room.{Room, RoomService, both_heroes_selected, select_hero}
use arena_game.Game.Room as R
use arena_game.Game.Room.Invariant as Rooms
use arena_game.Game.Battle as B
use arena_game.Game.Battle.{BattleService, BattleActionResult, start, attack}
use arena_game.Game.Battle.Invariant as Battles
use arena_game.Server.State.{GameServer, World}
use arena_game.Server.Heroes.{
  answer_select, select_session, hero_select, send_battle_start_notification, announce_battle,
  start_when_ready, after_select, handle_hero_select,
}
use arena_game.Server.Fighting.{answer_attack, attack_session, handle_battle_attack}
use arena_game.Server.Frames.{dispatch}
use arena_game.Server.Invariant.{IsValid}
use arena_game.Server.Invariant.Parts.{
  with_rooms, with_battles, if-IsValid, send_to_connection-IsValid, send_encoded-IsValid,
  state_notification-IsValid, finish_battle-IsValid,
}
use arena_game.Server.Invariant.Requests.{
  handle_login-IsValid, handle_register-IsValid, handle_match_join-IsValid,
  handle_match_cancel-IsValid,
}

answer_select-IsValid :
    (r : RoomService × Bool) → Rooms.IsValid r.0 → Rooms.IsValid (answer_select r).0
unfolding answer_select
answer_select-IsValid (t, true) v = v
answer_select-IsValid (t, false) v = v

rooms-if :
    {A : Type 0} (b : Bool) (x y : RoomService × A)
    → Rooms.IsValid x.0
    → Rooms.IsValid y.0
    → Rooms.IsValid (if b then x else y).0
rooms-if true x y v w = v
rooms-if false x y v w = w

hero_select-IsValid :
    (c : ℕ) (r : Option HeroSelectRequest) (t : SessionService) (rooms : RoomService)
    → Rooms.IsValid rooms
    → Rooms.IsValid (hero_select c r t rooms).0
unfolding hero_select select_session
hero_select-IsValid c none t rooms v = v
hero_select-IsValid c (some r) t rooms v = elim (Option-cases (find_by_connection c t)) [
  | inl e ↦ rw (e, hero_select) v
  | inr (p, e) ↦
      rw (e, hero_select)
        (rooms-if (p.room_id == 0) _ _ v (
          answer_select-IsValid (select_hero p.room_id p.user_id r.hero_type rooms)
            (Rooms.select_hero-IsValid p.room_id p.user_id r.hero_type rooms v)))
]

start_notification-IsValid :
    (room : Room) (s : GameServer) → IsValid s → IsValid (send_battle_start_notification room s)
unfolding send_battle_start_notification
start_notification-IsValid room s v = send_encoded-IsValid _ _ _ _ (send_encoded-IsValid _ _ _ s v)

announce_battle-IsValid :
    (room : Room) (r : BattleService × Bool) (s : GameServer)
    → Battles.IsValid r.0
    → IsValid s
    → IsValid (announce_battle room r s)
unfolding announce_battle
announce_battle-IsValid room (t, false) s w v = with_battles t s w v
announce_battle-IsValid room (t, true) s w v = elim (Option-cases (B.find room.room_id t)) [
  | inl e ↦ rw (e, announce_battle) (with_battles t s w v)
  | inr (b, e) ↦
      rw (e, announce_battle)
        (state_notification-IsValid b _ (start_notification-IsValid room _ (with_battles t s w v)))
]

start_when_ready-IsValid :
    (p : Option PlayerSession) (s : GameServer) → IsValid s → IsValid (start_when_ready p s)
unfolding start_when_ready
start_when_ready-IsValid none s v = v
start_when_ready-IsValid (some p) s v = elim (Option-cases (R.find p.room_id s.rooms)) [
  | inl e ↦ rw (e, start_when_ready) (if-IsValid _ v v)
  | inr (room, e) ↦
      rw (e, start_when_ready)
        (if-IsValid _ v (
          announce_battle-IsValid room (start room s.battles) s
            (Battles.start-IsValid room s.battles v.battles_valid) v))
]

after_select-IsValid :
    (c : ℕ) (p : HeroSelectResponse) (bytes : Option Bytes) (s : GameServer)
    → IsValid s
    → IsValid (after_select c p bytes s)
unfolding after_select
after_select-IsValid c p none s v = v
after_select-IsValid c p (some bytes) s v =
    let w = send_to_connection-IsValid c _ bytes s v in
    if-IsValid (not p.accepted) w (start_when_ready-IsValid _ _ w)

pub handle_hero_select-IsValid :
    (c : ℕ) (r : Reader) (s : GameServer) → IsValid s → IsValid (handle_hero_select c r s)
unfolding handle_hero_select
handle_hero_select-IsValid c r s v =
    let request : Option HeroSelectRequest = result (decode_hero_select_request r) in
    let response : HeroSelectResponse = (hero_select c request s.sessions s.rooms).1 in
    after_select-IsValid c response (encode_hero_select_response response []) _
      (with_rooms _ s (hero_select-IsValid c request s.sessions s.rooms v.rooms_valid) v)

answer_attack-IsValid :
    (r : BattleService × BattleActionResult) (w : World) (s : GameServer)
    → Battles.IsValid r.0
    → IsValid s
    → IsValid (answer_attack r w s)
unfolding answer_attack
answer_attack-IsValid (t, action) w s b v =
    let told = state_notification-IsValid action.state _ (with_battles t s b v) in
    if-IsValid (not action.accepted) (with_battles t s b v)
      (if-IsValid action.finished (finish_battle-IsValid action.state w _ told) told)

attack_session-IsValid :
    (p : Option PlayerSession) (w : World) (s : GameServer)
    → IsValid s
    → IsValid (attack_session p w s)
unfolding attack_session
attack_session-IsValid none w s v = v
attack_session-IsValid (some p) w s v = if-IsValid (p.room_id == 0) v (
    answer_attack-IsValid (attack p.room_id p.user_id s.battles) w s
      (Battles.attack-IsValid p.room_id p.user_id s.battles v.battles_valid) v)

pub handle_battle_attack-IsValid :
    (c : ℕ) (r : Reader) (w : World) (s : GameServer)
    → IsValid s
    → IsValid (handle_battle_attack c r w s)
unfolding handle_battle_attack
handle_battle_attack-IsValid c r w s v =
    elim (Option-cases (result (decode_battle_attack_request r))) [
      | inl e ↦ rw (e, handle_battle_attack) v
      | inr (m, e) ↦
          rw (e, handle_battle_attack)
            (attack_session-IsValid (find_by_connection c s.sessions) w s v)
    ]

-- Whatever a message is and whatever it says, the services stay in order.
pub dispatch-IsValid :
    (t : MsgType) (c : ℕ) (r : Reader) (w : World) (s : GameServer)
    → IsValid s
    → IsValid (dispatch t c r w s)
unfolding dispatch
dispatch-IsValid t c r w s v = if-IsValid (t == msg_login_req) (handle_login-IsValid c r s v) (
    if-IsValid (t == msg_register_req) (handle_register-IsValid c r w s v) (
      if-IsValid (t == msg_match_join_req) (handle_match_join-IsValid c r w s v) (
        if-IsValid (t == msg_hero_select_req) (handle_hero_select-IsValid c r s v) (
          if-IsValid (t == msg_battle_attack_req) (handle_battle_attack-IsValid c r w s v)
            (if-IsValid _ (handle_match_cancel-IsValid c r s v) v)))))
