-- ===== src/Tests/Wire.antt =====
-- Messages of common/GameMessages.h on the wire, at concrete inputs.
use arena_game.Prelude.{◌≡◌, some, true, false, [], ◌∷◌, arith}
use arena_game.Wire.Stream.{Bytes}
use arena_game.Wire.Messages.{
  LoginRequest, LoginResponse, MatchFoundNotification, BattleStateNotification,
  BattleResultNotification, HeroSelectResponse, empty_login_response, empty_hero_select_response,
  invalid_state,
}
use arena_game.Wire.Messages.Accounts.{encode_login_response, decode_login_response}
use arena_game.Wire.Messages.RoundTrip.{sent}
use arena_game.Wire.Messages.RoundTrip.Accounts.{login_response-sent, shown_login}

abbrev al : Bytes
al = 97 ∷ (108 ∷ [])

abbrev login : LoginRequest
login = record { user_name = al; password = 112 ∷ [] }

abbrev welcome : LoginResponse
welcome = record empty_login_response { success = true; user_id = 1; elo = 1000; user_name = al }

login_response-sent_example :
    sent encode_login_response (decode_login_response empty_login_response) welcome
    ≡ some (shown_login welcome)
login_response-sent_example = login_response-sent welcome (record {
  user_id_fits = omega arith;
  elo_fits = omega arith;
  user_name_fits = omega arith;
  error_code_fits = omega arith;
  error_message_fits = omega arith;
})

abbrev found : MatchFoundNotification
found = record { room_id = 1; opponent_user_id = 2; opponent_user_name = al; opponent_elo = 1050 }

abbrev refused : HeroSelectResponse
refused = record empty_hero_select_response { error_code = invalid_state; error_message = al }

abbrev turn : BattleStateNotification
turn = record { room_id = 1; player_health = 100; opponent_health = 70; player_turn = false }

abbrev victory : BattleResultNotification
victory = record { room_id = 1; won = true; player_elo = 1025 }
