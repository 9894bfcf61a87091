-- ===== src/Server/Login.antt =====
-- server/game/GameServer.cc: `handleLogin` and `handleRegister`.
use arena_game.Prelude.{ℕ, Bool, true, false, Option, none, some, []}
use arena_game.Prelude.Text.{text}
use arena_game.Wire.Protocol.{msg_login_rsp, msg_register_rsp}
use arena_game.Wire.Stream.{Bytes, Reader}
use arena_game.Wire.Stream.Reads.{result}
use arena_game.Wire.Messages.{
  ErrorCode, LoginRequest, LoginResponse, RegisterRequest, RegisterResponse, empty_login_response,
  empty_register_response, no_error, malformed_payload, duplicate_user_name, invalid_credentials,
  invalid_command, internal_error, invalid_state,
}
use arena_game.Wire.Messages.Accounts.{
  decode_login_request, encode_login_response, decode_register_request, encode_register_response,
}
use arena_game.Game.Account.{
  Account, AccountResult, ok, duplicate_user, wrong_credentials, invalid_input, storage_error,
  verify, register, AccountRepository,
}
use arena_game.Game.Session.{PlayerSession, SessionService, find_by_connection, bind}
use arena_game.Server.State.{GameServer, World, send_or_shutdown}

unfoldable pub to_error_code : AccountResult → ErrorCode
to_error_code ok = no_error
to_error_code duplicate_user = duplicate_user_name
to_error_code wrong_credentials = invalid_credentials
to_error_code invalid_input = invalid_command
to_error_code storage_error = internal_error

unfoldable pub account_result_message : AccountResult → Bytes
account_result_message duplicate_user = text "Username already exists"
account_result_message wrong_credentials = text "Invalid username or password"
account_result_message invalid_input = text "Invalid username or password format"
account_result_message storage_error = text "Account service temporarily unavailable"
account_result_message ok = text ""

abbrev pub login_refused : ErrorCode → Bytes → LoginResponse
login_refused code message = record empty_login_response {
  error_code = code;
  error_message = message;
}

abbrev pub register_refused : ErrorCode → Bytes → RegisterResponse
register_refused code message = record empty_register_response {
  error_code = code;
  error_message = message;
}

-- `session`, as `handleLogin` fills it in; it is in no room.
abbrev pub new_session : Account → PlayerSession
new_session account = record {
  user_id = account.user_id;
  user_name = account.user_name;
  elo = account.elo;
  room_id = 0;
}

abbrev pub login_accepted : Account → LoginResponse
login_accepted account = record empty_login_response {
  success = true;
  user_id = account.user_id;
  elo = account.elo;
  user_name = account.user_name;
}

-- `handleLogin` after `bind`.
unfoldable pub answer_bind : Account → SessionService × Bool → SessionService × LoginResponse
answer_bind account (sessions, true) = (sessions, login_accepted account)
answer_bind account (sessions, false) =
    (sessions, login_refused invalid_state (text "Account is already online"))

-- `handleLogin` after `Verify`.
unfoldable pub answer_verify :
    ℕ → SessionService → AccountResult × Option Account → SessionService × LoginResponse
unfolding answer_bind
answer_verify conn_id sessions (ok, some account) =
    answer_bind account (bind conn_id (new_session account) sessions)
answer_verify conn_id sessions (r, account) =
    (sessions, login_refused (to_error_code r) (account_result_message r))

-- The response of `handleLogin` to what `decode` made of the payload, and the sessions after it.
unfoldable pub login :
    ℕ → Option LoginRequest → AccountRepository → SessionService → SessionService × LoginResponse
unfolding answer_verify
login conn_id none accounts sessions =
    (sessions, login_refused malformed_payload (text "Malformed login request"))
login conn_id (some request) accounts sessions = elim (find_by_connection conn_id sessions) [
  | some _ ↦ (sessions, login_refused invalid_state (text "Connection is already authenticated"))
  | none ↦ answer_verify conn_id sessions (verify request.user_name request.password accounts)
]

unfoldable pub handle_login : ℕ → Reader → GameServer → GameServer
handle_login conn_id reader s =
    let (sessions, response) =
      login conn_id (result (decode_login_request reader)) s.accounts s.sessions in
    send_or_shutdown conn_id msg_login_rsp (encode_login_response response [])
      (record s { sessions = sessions })

abbrev pub register_accepted : Account → RegisterResponse
register_accepted account = record empty_register_response {
  success = true;
  user_id = account.user_id;
  user_name = account.user_name;
}

-- `handleRegister` after `Register`.
unfoldable pub answer_register :
    AccountRepository × AccountResult × Option Account → AccountRepository × RegisterResponse
answer_register (accounts, ok, some account) = (accounts, register_accepted account)
answer_register (accounts, r, account) =
    (accounts, register_refused (to_error_code r) (account_result_message r))

-- The response of `handleRegister`, and the accounts after it.
unfoldable pub register_account :
    Option RegisterRequest → World → AccountRepository → AccountRepository × RegisterResponse
unfolding answer_register
register_account none world accounts =
    (accounts, register_refused malformed_payload (text "Malformed register request"))
register_account (some request) world accounts =
    answer_register (register request.user_name request.password world.save_outcome accounts)

unfoldable pub handle_register : ℕ → Reader → World → GameServer → GameServer
handle_register conn_id reader world s =
    let (accounts, response) =
      register_account (result (decode_register_request reader)) world s.accounts in
    send_or_shutdown conn_id msg_register_rsp (encode_register_response response [])
      (record s { accounts = accounts })
