-- ===== src/Client/Login.antt =====
-- client/ArenaClient/scenes/LoginScene.cc: the login and the registration that wait for the
-- connection, what is sent, and the answers. A text is its bytes in UTF-8; what the user has typed
-- into the fields is an argument, and so is `QString::trimmed`.
pub mod Pending
pub mod Keeping
use arena_game.Prelude.{
  ℕ, Bool, true, false, not, ◌||◌, Option, none, some, List, [], ◌∷◌, ◌==◌, nat_eq, bytes_eq,
  if◌then◌else◌,
}
use arena_game.Prelude.Text.{text}
use arena_game.Wire.Protocol.{MsgType, msg_login_req, msg_register_req}
use arena_game.Wire.Stream.{Bytes, Writer, Reader}
use arena_game.Wire.Messages.{empty_login_response, empty_register_response}
use arena_game.Wire.Messages.Accounts.{
  encode_login_request, encode_register_request, decode_login_response, decode_register_response,
}
use arena_game.Client.Network.{GameClient, connected, connect, is_connected, send_message}
use arena_game.Client.Scenes.{
  PendingAction, no_action, login_action, register_action, LoginScene, is_pending, keep_action,
  on_error,
}
use arena_game.Client.Window.{MainWindow, enter_lobby, with_window}

abbrev pub with_login : (LoginScene → LoginScene) → GameClient MainWindow → GameClient MainWindow
with_login f = with_window (λ w. record w { login = f w.login })

abbrev pub set_login_status : Bytes → LoginScene → LoginScene
set_login_status message s = record s { login_status = message }

abbrev pub set_register_status : Bytes → LoginScene → LoginScene
set_register_status message s = record s { register_status = message }

unfoldable pub send_login : Bytes → Bytes → GameClient MainWindow → GameClient MainWindow
unfolding send_message
send_login user_name password c =
    elim (encode_login_request (record { user_name = user_name; password = password }) []) [
      | none ↦ with_login (set_login_status (text "Login request is too large")) c
      | some payload ↦
          with_login (set_login_status (text "Signing in..."))
            (send_message msg_login_req payload c)
    ]

unfoldable pub send_register : Bytes → Bytes → GameClient MainWindow → GameClient MainWindow
unfolding send_message
send_register user_name password c =
    elim (encode_register_request (record { user_name = user_name; password = password }) []) [
      | none ↦ with_login (set_register_status (text "Register request is too large")) c
      | some payload ↦
          with_login (set_register_status (text "Creating account..."))
            (send_message msg_register_req payload c)
    ]

-- `192.168.255.128:9999`
abbrev pub connect_server : GameClient MainWindow → GameClient MainWindow
connect_server c = connect (text "192.168.255.128") 9999 c

module _ (trimmed : Bytes → Bytes) where
  unfoldable pub on_login_clicked : Bytes → Bytes → GameClient MainWindow → GameClient MainWindow
  unfolding is_connected connect
  on_login_clicked typed_name password c =
      let user_name = trimmed typed_name in
      if user_name == [] || password == []
      then with_login (set_login_status (text "Please fill in username and password")) c
      else if is_connected c
      then send_login user_name password c
      else if is_pending c.outside.login
      then with_login (set_login_status (text "Connecting...")) c
      else connect_server (
          with_login
            (λ s.
              set_login_status (text "Conncting...")
                (keep_action login_action user_name password s))
            c)

  unfoldable pub on_register_clicked :
      Bytes → Bytes → Bytes → GameClient MainWindow → GameClient MainWindow
  unfolding is_connected connect
  on_register_clicked typed_name password password_confirm c =
      let user_name = trimmed typed_name in
      if user_name == [] || password == []
      then with_login (set_register_status (text "Please fill in username and password")) c
      else if not (password == password_confirm)
      then with_login (set_register_status (text "Passwords do not match")) c
      else if is_connected c
      then send_register user_name password c
      else if is_pending c.outside.login
      then with_login (set_register_status (text "Connecting...")) c
      else connect_server (
          with_login
            (λ s.
              set_register_status (text "Connecting...")
                (keep_action register_action user_name password s))
            c)

-- The slot of the signal `connected`.
unfoldable pub on_connected : GameClient MainWindow → GameClient MainWindow
unfolding send_login send_register
on_connected c =
    let s : LoginScene = c.outside.login in
    let cleared : GameClient MainWindow = with_login (keep_action no_action [] []) c in
    elim s.pending_action [
      | no_action ↦ cleared
      | login_action ↦ send_login s.pending_user_name s.pending_password cleared
      | register_action ↦ send_register s.pending_user_name s.pending_password cleared
    ]

-- The socket is connected, and says so.
unfoldable pub on_socket_connected : GameClient MainWindow → GameClient MainWindow
unfolding on_connected
on_socket_connected c = on_connected (record c { socket = record c.socket { state = connected } })

unfoldable pub on_login_response : Reader → MainWindow → MainWindow
unfolding enter_lobby
on_login_response reader w = elim (decode_login_response empty_login_response reader) [
  | none ↦ record w { login = set_login_status (text "Malformed login response") w.login }
  | some (response, _) ↦
      if not response.success
      then record w { login = set_login_status response.error_message w.login }
      else enter_lobby response.user_id response.user_name response.elo
          (record w { login = record w.login { pending_action = no_action } })
]

-- `switch_to_login` follows after 1200 ms.
unfoldable pub on_register_response : Reader → MainWindow → MainWindow
on_register_response reader w = elim (decode_register_response empty_register_response reader) [
  | none ↦ record w { login = set_register_status (text "Malformed register response") w.login }
  | some (response, _) ↦
      if not response.success
      then record w { login = set_register_status response.error_message w.login }
      else record w {
        login = set_register_status (text "Account created. Returning to login...") w.login;
      }
]
