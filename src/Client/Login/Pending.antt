-- ===== src/Client/Login/Pending.antt =====
-- client/ArenaClient/scenes/LoginScene.cc: a login that waits for the connection.
use arena_game.Prelude.{
  ◌≤◌, ◌≡◌, ◌≢◌, refl, false, some, [], ◌++◌, ◌==◌, nat_eq, bytes_eq, length, arith, Option-cases,
  inl, inr, bytes_beq_iff, Bool-cases,
}
use arena_game.Prelude.Text.{text}
use arena_game.Wire.Protocol.{max_string_bytes, msg_login_req}
use arena_game.Wire.Stream.{Bytes, Writer, reader_of}
use arena_game.Wire.Stream.Reads.{result}
use arena_game.Wire.Messages.{LoginRequest}
use arena_game.Wire.Messages.Accounts.{encode_login_request, decode_login_request}
use arena_game.Wire.Messages.RoundTrip.{sent}
use arena_game.Wire.Messages.RoundTrip.Accounts.{IsShortLogin, login_request-sent}
use arena_game.Server.State.{frame}
use arena_game.Client.Network.{GameClient, is_connected, send_message, connect}
use arena_game.Client.Scenes.{keep_action, is_pending, no_action, login_action}
use arena_game.Client.Window.{MainWindow}
use arena_game.Client.Login.{
  connect_server, with_login, set_login_status, on_login_clicked, on_connected, on_socket_connected,
  send_login,
}

-- A request of short strings is encoded, and the server reads it.
encoded_login :
    (r : LoginRequest)
    → IsShortLogin r
    → (payload : Writer) × (encode_login_request r [] ≡ some payload)
      × (result (decode_login_request (reader_of payload)) ≡ some r)
encoded_login r short =
    let h : sent encode_login_request decode_login_request r ≡ some r =
      login_request-sent r short in
    elim (Option-cases (encode_login_request r [])) [
      | inl e ↦ absurd (ground (arith, rw (e, sent) at h))
      | inr (payload, e) ↦ (payload, e, rw (e, sent) at h)
    ]

not_empty : (text : Bytes) → text ≢ [] → (text == []) ≡ false
not_empty text h = elim (Bool-cases (text == [])) [
  | inl e ↦ absurd (h ((bytes_beq_iff text []).0 e))
  | inr e ↦ e
]

-- The client when a login waits.
abbrev waiting : Bytes → Bytes → GameClient MainWindow → GameClient MainWindow
waiting user_name password c = connect_server (
    with_login
      (λ s. set_login_status (text "Conncting...") (keep_action login_action user_name password s))
      c)

on_login_clicked-waiting :
    (trimmed : Bytes → Bytes) (typed_name password : Bytes) (c : GameClient MainWindow)
    → is_connected c ≡ false
    → is_pending c.outside.login ≡ false
    → (trimmed typed_name == []) ≡ false
    → (password == []) ≡ false
    → on_login_clicked trimmed typed_name password c ≡ waiting (trimmed typed_name) password c
unfolding on_login_clicked
on_login_clicked-waiting trimmed typed_name password c offline free named secret =
    rw (named, secret, offline, free) refl

-- What is sent when the socket is connected.
on_socket_connected-waiting :
    (user_name password : Bytes) (payload : Writer) (c : GameClient MainWindow)
    → encode_login_request (record { user_name = user_name; password = password }) [] ≡ some payload
    → let online : GameClient MainWindow = on_socket_connected (waiting user_name password c) in
      (online.socket.written ≡ c.socket.written ++ frame msg_login_req payload)
      × (online.outside.login.pending_action ≡ no_action)
      × (online.outside.login.pending_password ≡ [])
unfolding on_socket_connected on_connected send_message frame connect
on_socket_connected-waiting user_name password payload c e =
    (rw (e, send_login) refl, rw (e, send_login) refl, rw (e, send_login) refl)

on_socket_connected-idle :
    (c : GameClient MainWindow)
    → c.outside.login.pending_action ≡ no_action
    → (on_socket_connected c).socket.written ≡ c.socket.written
unfolding on_socket_connected
on_socket_connected-idle c e = rw (e, on_connected) refl

-- Where nothing waits yet, the client is not connected, and the name without its spaces and the
-- password have 1 to 1024 bytes, a click on the button to log in writes nothing; when the socket
-- is connected one frame is written, which the server decodes to this name and password; nothing
-- waits then, the password is forgotten, and a later connection writes nothing again.
pub on_login_clicked-on_connected :
    (trimmed : Bytes → Bytes) (typed_name password : Bytes) (c : GameClient MainWindow)
    → is_connected c ≡ false
    → c.outside.login.pending_action ≡ no_action
    → trimmed typed_name ≢ []
    → password ≢ []
    → length (trimmed typed_name) ≤ max_string_bytes
    → length password ≤ max_string_bytes
    → let clicked : GameClient MainWindow = on_login_clicked trimmed typed_name password c in
      let online : GameClient MainWindow = on_socket_connected clicked in
      (clicked.socket.written ≡ c.socket.written)
      × ((payload : Writer) × (result (decode_login_request (reader_of payload))
            ≡ some (record { user_name = trimmed typed_name; password = password }))
          × (online.socket.written ≡ c.socket.written ++ frame msg_login_req payload))
      × (online.outside.login.pending_action ≡ no_action)
      × (online.outside.login.pending_password ≡ [])
      × ((on_socket_connected online).socket.written ≡ online.socket.written)
unfolding connect
on_login_clicked-on_connected trimmed typed_name password c offline free named secret n p =
    let r : LoginRequest = record { user_name = trimmed typed_name; password = password } in
    let (payload, e, back) = encoded_login r (record { user_name_fits = n; password_fits = p }) in
    let waits : on_login_clicked trimmed typed_name password c
        ≡ waiting (trimmed typed_name) password c =
      on_login_clicked-waiting trimmed typed_name password c offline (rw free refl)
        (not_empty (trimmed typed_name) named) (not_empty password secret) in
    let (wrote, done, forgot) =
      on_socket_connected-waiting (trimmed typed_name) password payload c e in
    (
      rw waits refl,
      (payload, back, rw waits wrote),
      rw waits done,
      rw waits forgot,
      rw waits (on_socket_connected-idle _ done),
    )
