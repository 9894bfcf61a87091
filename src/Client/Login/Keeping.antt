-- ===== src/Client/Login/Keeping.antt =====
-- client/ArenaClient/scenes/LoginScene.cc and the other scenes.
use arena_game.Prelude.{
  ◌≡◌, refl, not, [], ◌==◌, nat_eq, if_cases, Option-cases, inl, inr, ◌||◌, bytes_eq,
}
use arena_game.Wire.Messages.Accounts.{encode_login_request, encode_register_request}
use arena_game.Client.Login.{
  with_login, send_login, send_register, on_login_clicked, on_register_clicked, on_connected,
}
use arena_game.Wire.Stream.{Bytes}
use arena_game.Client.Network.{connect, GameClient, send_message, is_connected}
use arena_game.Client.Scenes.{
  PendingAction, no_action, login_action, register_action, is_pending, keep_action,
}
use arena_game.Client.Window.{MainWindow}

-- The scenes of the lobby and of the heroes are as they were.
abbrev pub SameScenes : GameClient MainWindow → GameClient MainWindow → Type 0
SameScenes c d =
    (d.outside.lobby ≡ c.outside.lobby) × (d.outside.hero_select ≡ c.outside.hero_select)

send_login-SameScenes :
    (user_name password : Bytes) (c : GameClient MainWindow)
    → SameScenes c (send_login user_name password c)
unfolding send_login send_message
send_login-SameScenes user_name password c =
    elim (Option-cases
      (encode_login_request (record { user_name = user_name; password = password }) [])) [
        | inl e ↦ rw (e, send_login) (refl, refl)
        | inr (payload, e) ↦
            rw (e, send_login)
              (if_cases (λ (d : GameClient MainWindow). SameScenes c d) (not (is_connected c)) c _
                (λ _. (refl, refl)) (λ _. (refl, refl)))
      ]

send_register-SameScenes :
    (user_name password : Bytes) (c : GameClient MainWindow)
    → SameScenes c (send_register user_name password c)
unfolding send_register send_message
send_register-SameScenes user_name password c =
    elim (Option-cases
      (encode_register_request (record { user_name = user_name; password = password }) [])) [
        | inl e ↦ rw (e, send_register) (refl, refl)
        | inr (payload, e) ↦
            rw (e, send_register)
              (if_cases (λ (d : GameClient MainWindow). SameScenes c d) (not (is_connected c)) c _
                (λ _. (refl, refl)) (λ _. (refl, refl)))
      ]

pub on_login_clicked-SameScenes :
    (trimmed : Bytes → Bytes) (typed_name password : Bytes) (c : GameClient MainWindow)
    → SameScenes c (on_login_clicked trimmed typed_name password c)
unfolding on_login_clicked connect
on_login_clicked-SameScenes trimmed typed_name password c =
    let P = λ (d : GameClient MainWindow). SameScenes c d in
    if_cases P (trimmed typed_name == [] || password == []) _ _ (λ _. (refl, refl))
      (λ _.
        if_cases P (is_connected c) _ _ (λ _. send_login-SameScenes (trimmed typed_name) password c)
          (λ _.
            if_cases P (is_pending c.outside.login) _ _ (λ _. (refl, refl)) (λ _. (refl, refl))))

pub on_register_clicked-SameScenes :
    (trimmed : Bytes → Bytes) (typed_name password confirm : Bytes) (c : GameClient MainWindow)
    → SameScenes c (on_register_clicked trimmed typed_name password confirm c)
unfolding on_register_clicked connect
on_register_clicked-SameScenes trimmed typed_name password confirm c =
    let P = λ (d : GameClient MainWindow). SameScenes c d in
    if_cases P (trimmed typed_name == [] || password == []) _ _ (λ _. (refl, refl))
      (λ _.
        if_cases P (not (password == confirm)) _ _ (λ _. (refl, refl))
          (λ _.
            if_cases P (is_connected c) _ _
              (λ _. send_register-SameScenes (trimmed typed_name) password c)
              (λ _.
                if_cases P (is_pending c.outside.login) _ _ (λ _. (refl, refl))
                  (λ _. (refl, refl)))))

pub on_connected-SameScenes : (c : GameClient MainWindow) → SameScenes c (on_connected c)
unfolding on_connected
on_connected-SameScenes c = answered c.outside.login.pending_action
  where
    answered :
        (action : PendingAction)
        → SameScenes c (elim action [
          | no_action ↦ with_login (keep_action no_action [] []) c
          | login_action ↦
              send_login c.outside.login.pending_user_name c.outside.login.pending_password
                (with_login (keep_action no_action [] []) c)
          | register_action ↦
              send_register c.outside.login.pending_user_name c.outside.login.pending_password
                (with_login (keep_action no_action [] []) c)
        ])
    answered no_action = (refl, refl)
    answered login_action =
        send_login-SameScenes c.outside.login.pending_user_name c.outside.login.pending_password
          (with_login (keep_action no_action [] []) c)
    answered register_action =
        send_register-SameScenes c.outside.login.pending_user_name c.outside.login.pending_password
          (with_login (keep_action no_action [] []) c)
