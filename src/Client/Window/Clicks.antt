-- ===== src/Client/Window/Clicks.antt =====
-- The buttons of client/ArenaClient/ through everything that happens to the window of
-- mainwindow.cpp, and what a confirmed hero sends.
use arena_game.Prelude.{
  ◌≤◌, ◌≡◌, ◌≢◌, ◌⊎◌, refl, sym, subst, true, false, not, Option, none, some, List, [], ◌∷◌, ◌++◌,
  ◌==◌, nat_eq, arith, if_cases, All, bytes_eq,
}
use arena_game.Client.Login.Keeping.{
  SameScenes, on_login_clicked-SameScenes, on_register_clicked-SameScenes, on_connected-SameScenes,
}
use arena_game.Client.Login.{with_login, on_login_clicked, on_register_clicked, on_socket_connected}
use arena_game.Wire.Stream.{Bytes, Reader, Writer}
use arena_game.Wire.Protocol.{MsgType, msg_hero_select_req}
use arena_game.Server.State.{frame}
use arena_game.Wire.Messages.{HeroType, no_hero, warrior, mage, archer}
use arena_game.Wire.Messages.Matching.{
  encode_match_join_request, encode_hero_select_request, encode_match_cancel_request,
}
use arena_game.Wire.Messages.Battle.{encode_battle_attack_request}
use arena_game.Client.Network.{connected, GameClient, send_message, is_connected}
use arena_game.Client.Scenes.{
  on_error, switch_to_register, switch_to_login, LobbyScene, HeroSelectScene,
  show_matchmaking_ready, LobbySignal, match_requested, match_cancel_requested,
  on_match_button_clicked, select_hero, on_confirm_clicked,
}
use arena_game.Client.Window.{
  MainWindow, switch_to, send_request, on_lobby_signal, click_match, click_hero, on_hero_confirmed,
  click_confirm, click_attack, click_return, with_window,
}
use arena_game.Client.Window.Invariant.{
  IsOffering, IsChoosing, IsConsistent, Message, handle, handle-IsConsistent,
  lobby_ready-IsOffering, rejected-IsChoosing, relabelled-IsOffering, offer, choose,
}

-- What a message sent leaves of the client.
abbrev KeepsWindow : (f : GameClient MainWindow → GameClient MainWindow) → Type 0
KeepsWindow f = (c : GameClient MainWindow) → (f c).outside ≡ c.outside

send_message-outside :
    (msg_type : MsgType) (payload : Writer) → KeepsWindow (send_message msg_type payload)
unfolding send_message
send_message-outside msg_type payload c =
    if_cases (λ (d : GameClient MainWindow). d.outside ≡ c.outside) (not (is_connected c)) c _
      (λ _. refl) (λ _. refl)

send_request-IsConsistent :
    (msg_type : MsgType) (payload : Option Writer)
    (failed : GameClient MainWindow → GameClient MainWindow) (c : GameClient MainWindow)
    → IsConsistent c.outside
    → IsConsistent (failed c).outside
    → IsConsistent (send_request msg_type payload failed c).outside
send_request-IsConsistent msg_type none failed c h k = k
send_request-IsConsistent msg_type (some payload) failed c h k =
    subst IsConsistent (sym (send_message-outside msg_type payload c)) h

-- What becomes of the client where the scenes of the lobby and of the heroes stay.
SameScenes-IsConsistent :
    (c d : GameClient MainWindow) → SameScenes c d → IsConsistent c.outside → IsConsistent d.outside
SameScenes-IsConsistent c d (e, f) h = record {
  offering = subst IsOffering (sym e) h.offering;
  choosing = subst IsChoosing (sym f) h.choosing;
}

-- A click of the user, what the socket says, or input from the server. The timer that goes back to
-- the page to log in is the click on its button.
pub data Event : Type 0 where
  match_clicked confirm_clicked attack_clicked return_clicked : Event
  hero_clicked : HeroType → Event
  login_clicked : Bytes → Bytes → Event
  register_clicked : Bytes → Bytes → Bytes → Event
  to_register_clicked to_login_clicked socket_connected : Event
  socket_failed : Bytes → Event
  received : Message → Reader → Event

-- The three buttons of heroes.
abbrev pub IsOffered : Event → Type 0
IsOffered match_clicked = Unit
IsOffered confirm_clicked = Unit
IsOffered attack_clicked = Unit
IsOffered return_clicked = Unit
IsOffered (hero_clicked hero_type) = (hero_type ≢ no_hero) × (hero_type ≤ archer)
IsOffered (login_clicked typed_name password) = Unit
IsOffered (register_clicked typed_name password password_confirm) = Unit
IsOffered to_register_clicked = Unit
IsOffered to_login_clicked = Unit
IsOffered socket_connected = Unit
IsOffered (socket_failed message) = Unit
IsOffered (received m reader) = Unit

abbrev pub run_event : (Bytes → Bytes) → Event → GameClient MainWindow → GameClient MainWindow
run_event trimmed match_clicked c = click_match c
run_event trimmed confirm_clicked c = click_confirm c
run_event trimmed attack_clicked c = click_attack c
run_event trimmed return_clicked c = click_return c
run_event trimmed (hero_clicked hero_type) c = click_hero hero_type c
run_event trimmed (login_clicked typed_name password) c =
    on_login_clicked trimmed typed_name password c
run_event trimmed (register_clicked typed_name password password_confirm) c =
    on_register_clicked trimmed typed_name password password_confirm c
run_event trimmed to_register_clicked c = with_login switch_to_register c
run_event trimmed to_login_clicked c = with_login switch_to_login c
run_event trimmed socket_connected c = on_socket_connected c
run_event trimmed (socket_failed message) c = with_login (on_error message) c
run_event trimmed (received m reader) c = with_window (handle m reader) c

abbrev pub run_events : (Bytes → Bytes) → List Event → GameClient MainWindow → GameClient MainWindow
run_events trimmed [] c = c
run_events trimmed (event ∷ events) c = run_events trimmed events (run_event trimmed event c)

clicked-IsOffering : (s : LobbyScene) → IsOffering (on_match_button_clicked s).0
unfolding on_match_button_clicked
clicked-IsOffering s =
    if_cases (λ (r : LobbyScene × LobbySignal). IsOffering r.0) s.matchmaking_queued _ _
      (λ _. record { match_text = λ e. absurd (ground (arith, e)) })
      (λ _. record { match_text = λ e. absurd (ground (arith, e)) })

on_lobby_signal-IsConsistent :
    (signal : LobbySignal) (c : GameClient MainWindow)
    → IsConsistent c.outside
    → IsConsistent (on_lobby_signal signal c).outside
unfolding on_lobby_signal
on_lobby_signal-IsConsistent match_requested c h =
    send_request-IsConsistent _ (encode_match_join_request (record {}) []) _ c h
      (offer h (lobby_ready-IsOffering _ c.outside.lobby) refl)
on_lobby_signal-IsConsistent match_cancel_requested c h =
    send_request-IsConsistent _ (encode_match_cancel_request (record {}) []) _ c h h

confirmed-IsChoosing : (s : HeroSelectScene) → IsChoosing s → IsChoosing (on_confirm_clicked s).0
unfolding on_confirm_clicked
confirmed-IsChoosing s c =
    if_cases (λ (r : HeroSelectScene × Option HeroType). IsChoosing r.0)
      (not (s.selected_hero == no_hero)) _ _
      (λ _. record { playable = c.playable; confirm = λ e. absurd (ground (arith, e)) }) (λ _. c)

on_hero_confirmed-IsConsistent :
    (confirmed : Option HeroType) (c : GameClient MainWindow)
    → IsConsistent c.outside
    → IsConsistent (on_hero_confirmed confirmed c).outside
on_hero_confirmed-IsConsistent none c h = h
on_hero_confirmed-IsConsistent (some hero_type) c h =
    send_request-IsConsistent _ (encode_hero_select_request (record { hero_type = hero_type }) []) _
      c h (choose h (rejected-IsChoosing _ c.outside.hero_select h.choosing) refl)

run_event-IsConsistent :
    (trimmed : Bytes → Bytes) (event : Event) (c : GameClient MainWindow)
    → IsOffered event
    → IsConsistent c.outside
    → IsConsistent (run_event trimmed event c).outside
unfolding on_socket_connected on_error click_match click_hero select_hero click_confirm click_attack
    click_return switch_to
run_event-IsConsistent trimmed match_clicked c o h =
    if_cases (λ (d : GameClient MainWindow). IsConsistent d.outside) c.outside.lobby.match_enabled _
      c (λ _. on_lobby_signal-IsConsistent _ _ (offer h (clicked-IsOffering c.outside.lobby) refl))
      (λ _. h)
run_event-IsConsistent trimmed confirm_clicked c o h =
    if_cases (λ (d : GameClient MainWindow). IsConsistent d.outside)
      c.outside.hero_select.confirm_enabled _ c
      (λ _.
        on_hero_confirmed-IsConsistent (on_confirm_clicked c.outside.hero_select).1
          (with_window
            (λ w. record w { hero_select = (on_confirm_clicked c.outside.hero_select).0 }) c)
          (choose h (confirmed-IsChoosing c.outside.hero_select h.choosing) refl))
      (λ _. h)
run_event-IsConsistent trimmed attack_clicked c o h =
    if_cases (λ (d : GameClient MainWindow). IsConsistent d.outside) c.outside.battle.attack_enabled
      _ c
      (λ _.
        send_request-IsConsistent _ (encode_battle_attack_request (record {}) []) _ _
          (offer h h.offering refl) (offer h h.offering refl))
      (λ _. h)
run_event-IsConsistent trimmed return_clicked c o h =
    if_cases (λ (d : GameClient MainWindow). IsConsistent d.outside) c.outside.battle.return_enabled
      _ c
      (λ _.
        offer h
          (relabelled-IsOffering _ _ _ (show_matchmaking_ready c.outside.lobby)
            (lobby_ready-IsOffering _ c.outside.lobby))
          refl)
      (λ _. h)
run_event-IsConsistent trimmed (hero_clicked hero_type) c (chosen, within) h =
    if_cases (λ (d : GameClient MainWindow). IsConsistent d.outside)
      c.outside.hero_select.heroes_enabled _ c
      (λ e. choose h (record { playable = within; confirm = λ _. (chosen, e) }) refl) (λ _. h)
run_event-IsConsistent trimmed (login_clicked typed_name password) c o h =
    SameScenes-IsConsistent c (on_login_clicked trimmed typed_name password c)
      (on_login_clicked-SameScenes trimmed typed_name password c) h
run_event-IsConsistent trimmed (register_clicked typed_name password password_confirm) c o h =
    SameScenes-IsConsistent c (on_register_clicked trimmed typed_name password password_confirm c)
      (on_register_clicked-SameScenes trimmed typed_name password password_confirm c) h
run_event-IsConsistent trimmed to_register_clicked c o h = offer h h.offering refl
run_event-IsConsistent trimmed to_login_clicked c o h = offer h h.offering refl
run_event-IsConsistent trimmed socket_connected c o h =
    SameScenes-IsConsistent c (on_socket_connected c)
      (on_connected-SameScenes (record c { socket = record c.socket { state = connected } })) h
run_event-IsConsistent trimmed (socket_failed message) c o h = offer h h.offering refl
run_event-IsConsistent trimmed (received m reader) c o h = handle-IsConsistent m reader c.outside h

-- Where a hero can be confirmed only if one of the three is selected and the selection can be
-- changed still, and an enabled match button offers what its click asks for, to join or to leave
-- the queue, all of this holds after any run of clicks on the buttons of all scenes, of
-- connections and errors of the socket, and of messages of the ten types that the client handles,
-- whatever their bytes.
pub run_events-IsConsistent :
    (trimmed : Bytes → Bytes) (events : List Event) (c : GameClient MainWindow)
    → All IsOffered events
    → IsConsistent c.outside
    → IsConsistent (run_events trimmed events c).outside
run_events-IsConsistent trimmed [] c o h = h
run_events-IsConsistent trimmed (event ∷ events) c (o, os) h =
    run_events-IsConsistent trimmed events (run_event trimmed event c) os
      (run_event-IsConsistent trimmed event c o h)

-- In a consistent window whose button to confirm is enabled, of a client that is connected, the
-- click writes exactly one frame, with the selected hero, which is one of the three; then neither
-- the button nor the heroes can be clicked.
pub click_confirm-sent :
    (c : GameClient MainWindow)
    → IsConsistent c.outside
    → c.outside.hero_select.confirm_enabled ≡ true
    → is_connected c ≡ true
    → let hero : HeroType = c.outside.hero_select.selected_hero in
      let clicked : GameClient MainWindow = click_confirm c in
      (payload : Writer) × (encode_hero_select_request (record { hero_type = hero }) []
        ≡ some payload)
      × (clicked.socket.written ≡ c.socket.written ++ frame msg_hero_select_req payload)
      × ((hero ≡ warrior) ⊎ (hero ≡ mage) ⊎ (hero ≡ archer))
      × (clicked.outside.hero_select.confirm_enabled ≡ false)
      × (clicked.outside.hero_select.heroes_enabled ≡ false)
unfolding click_confirm on_confirm_clicked send_message frame encode_hero_select_request
click_confirm-sent c h enabled online =
    let (chosen, changeable) = h.choosing.confirm enabled in
    let within = h.choosing.playable in
    let some_hero : (c.outside.hero_select.selected_hero == no_hero) ≡ false =
      ground (arith, chosen) in
    (
      _,
      refl,
      ground (arith, enabled, online, some_hero),
      ground (arith, chosen, within),
      ground (arith, enabled, online, some_hero),
      ground (arith, enabled, online, some_hero),
    )
