-- ===== src/Server/Heroes.antt =====
-- server/game/GameServer.cc: `handleHeroSelect` and `sendBattleStartNotification`.
use arena_game.Prelude.{
  ℕ, Bool, true, false, not, Option, none, some, [], ◌==◌, nat_eq, if◌then◌else◌,
}
use arena_game.Prelude.Text.{text}
use arena_game.Wire.Protocol.{msg_hero_select_rsp, msg_battle_start_ntf}
use arena_game.Wire.Stream.{Bytes, Reader}
use arena_game.Wire.Stream.Reads.{result}
use arena_game.Wire.Messages.{
  ErrorCode, HeroSelectRequest, HeroSelectResponse, empty_hero_select_response, malformed_payload,
  not_authenticated, invalid_state,
}
use arena_game.Wire.Messages.Matching.{decode_hero_select_request, encode_hero_select_response}
use arena_game.Wire.Messages.Battle.{encode_battle_start}
use arena_game.Game.Session.{
  PlayerSession, SessionService, find_by_connection, find_connection_by_user_id,
}
use arena_game.Game.Room as Rooms
use arena_game.Game.Room.{Room, RoomService, select_hero, both_heroes_selected}
use arena_game.Game.Battle as Battles
use arena_game.Game.Battle.{BattleState, BattleService, start}
use arena_game.Server.State.{GameServer, send_encoded, send_to_connection}
use arena_game.Server.Fighting.{send_battle_state_notification}

abbrev pub hero_refused : ErrorCode → Bytes → HeroSelectResponse
hero_refused code message = record empty_hero_select_response {
  error_code = code;
  error_message = message;
}

-- `handleHeroSelect` after `selectHero`.
unfoldable pub answer_select : RoomService × Bool → RoomService × HeroSelectResponse
answer_select (rooms, true) = (rooms, record empty_hero_select_response { accepted = true })
answer_select (rooms, false) =
    (rooms, hero_refused invalid_state (text "Hero selection is invalid or already confirmed"))

-- `handleHeroSelect` once the request is decoded and the session looked up.
unfoldable pub select_session :
    Option PlayerSession → HeroSelectRequest → RoomService → RoomService × HeroSelectResponse
unfolding answer_select
select_session none request rooms =
    (rooms, hero_refused not_authenticated (text "Login is required before selecting a hero"))
select_session (some session) request rooms =
    if session.room_id == 0
    then (
      rooms,
      hero_refused invalid_state (text "Matchmaking is required before selecting a hero"),
    )
    else answer_select (select_hero session.room_id session.user_id request.hero_type rooms)

-- The response of `handleHeroSelect`, and the rooms after it.
unfoldable pub hero_select :
    ℕ → Option HeroSelectRequest → SessionService → RoomService → RoomService × HeroSelectResponse
unfolding select_session
hero_select conn_id none sessions rooms =
    (rooms, hero_refused malformed_payload (text "Malformed hero selection payload"))
hero_select conn_id (some request) sessions rooms =
    select_session (find_by_connection conn_id sessions) request rooms

unfoldable pub send_battle_start_notification : Room → GameServer → GameServer
send_battle_start_notification room s =
    let first_conn = find_connection_by_user_id room.first_user_id s.sessions in
    let second_conn = find_connection_by_user_id room.second_user_id s.sessions in
    send_encoded second_conn msg_battle_start_ntf
      (encode_battle_start
        (record {
          room_id = room.room_id;
          player_hero = room.second_hero;
          opponent_hero = room.first_hero;
        })
        [])
      (send_encoded first_conn msg_battle_start_ntf
        (encode_battle_start
          (record {
            room_id = room.room_id;
            player_hero = room.first_hero;
            opponent_hero = room.second_hero;
          })
          [])
        s)

-- The end of `handleHeroSelect`, after `battleService_.start`.
unfoldable pub announce_battle : Room → BattleService × Bool → GameServer → GameServer
announce_battle room (battles, started) s =
    if not started
    then record s { battles = battles }
    else elim (Battles.find room.room_id battles) [
      | none ↦ record s { battles = battles }
      | some state ↦
          send_battle_state_notification state
            (send_battle_start_notification room (record s { battles = battles }))
    ]

-- `handleHeroSelect` from the second look at the session on.
unfoldable pub start_when_ready : Option PlayerSession → GameServer → GameServer
unfolding announce_battle
start_when_ready none s = s
start_when_ready (some session) s =
    if not (both_heroes_selected session.room_id s.rooms)
    then s
    else elim (Rooms.find session.room_id s.rooms) [
      | none ↦ s
      | some room ↦ announce_battle room (start room s.battles) s
    ]

-- `handleHeroSelect` after the response is encoded.
unfoldable pub after_select : ℕ → HeroSelectResponse → Option Bytes → GameServer → GameServer
after_select conn_id response none s = s
after_select conn_id response (some writer) s =
    let sent = send_to_connection conn_id msg_hero_select_rsp writer s in
    if not response.accepted
    then sent
    else start_when_ready (find_by_connection conn_id sent.sessions) sent

unfoldable pub handle_hero_select : ℕ → Reader → GameServer → GameServer
unfolding after_select
handle_hero_select conn_id reader s =
    let (rooms, response) =
      hero_select conn_id (result (decode_hero_select_request reader)) s.sessions s.rooms in
    after_select conn_id response (encode_hero_select_response response [])
      (record s { rooms = rooms })
