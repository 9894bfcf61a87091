-- ===== src/Client/Window.antt =====
-- client/ArenaClient/mainwindow.h and mainwindow.cpp: which scene is shown, the handlers of the
-- server's messages, and the messages of the scenes to the server.
pub mod Agreement
pub mod Invariant
pub mod Clicks
use arena_game.Prelude.{
  ℕ, Bool, true, false, not, ◌||◌, Option, none, some, List, [], ◌∷◌, ◌==◌, nat_eq, if◌then◌else◌,
}
use arena_game.Wire.Protocol.{
  MsgType, msg_match_join_req, msg_match_join_rsp, msg_match_found_ntf, msg_match_cancel_req,
  msg_match_cancel_rsp, msg_hero_select_req, msg_hero_select_rsp, msg_battle_start_ntf,
  msg_room_closed_ntf, msg_battle_attack_req, msg_battle_state_ntf, msg_battle_result_ntf,
}
use arena_game.Wire.Stream.{Bytes, Writer, Reader}
use arena_game.Wire.Messages.{HeroType}
use arena_game.Wire.Messages.Matching.{
  decode_match_found, decode_match_join_response, encode_match_join_request,
  encode_hero_select_request, decode_hero_select_response, decode_room_closed,
  encode_match_cancel_request, decode_match_cancel_response,
}
use arena_game.Wire.Messages.Battle.{
  decode_battle_start, encode_battle_attack_request, decode_battle_state, decode_battle_result,
}
use arena_game.Prelude.Text.{text}
use arena_game.Client.Network.{
  GameClient, Socket, Handler, make_client, register_handler, send_message,
}
use arena_game.Client.Scenes.{
  PlayerLabel, LobbyScene, new_lobby, set_player_info, show_matchmaking_ready,
  show_matchmaking_queued, show_match_join_rejected, show_room_closed, LobbySignal, match_requested,
  match_cancel_requested, on_match_button_clicked, HeroSelectScene, new_hero_select,
  reset_selection, show_selection_accepted, show_selection_rejected, select_hero,
  on_confirm_clicked, LoginScene, BattleScene, new_battle_scene, set_match_info, set_hero_info,
  show_battle_state, show_battle_result, on_attack_clicked, on_return_clicked,
}

-- `Scene`
pub data Scene : Type 0 where
  login_scene lobby_scene battle_scene result_scene hero_select_scene : Scene

abbrev pub is_lobby : Scene → Bool
is_lobby login_scene = false
is_lobby lobby_scene = true
is_lobby battle_scene = false
is_lobby result_scene = false
is_lobby hero_select_scene = false

-- The members, with what the scenes show; `current` is the current widget of `stack_`.
pub record MainWindow : Type 0 where
  pub current : Scene
  pub login : LoginScene
  pub lobby : LobbyScene
  pub hero_select : HeroSelectScene
  pub battle : BattleScene
  pub user_id : ℕ
  pub user_name : Bytes
  pub elo : ℕ
  pub matched_room_id : ℕ
  pub matched_opponent_name : Bytes
  pub matched_opponent_elo : ℕ

unfoldable pub switch_to : Scene → MainWindow → MainWindow
switch_to login_scene w = record w { current = login_scene }
switch_to lobby_scene w = record w {
  lobby = set_player_info w.user_id w.user_name w.elo w.lobby;
  current = lobby_scene;
}
switch_to battle_scene w = record w { current = battle_scene }
switch_to result_scene w = w
switch_to hero_select_scene w = record w { current = hero_select_scene }

abbrev pub set_user_info : ℕ → Bytes → ℕ → MainWindow → MainWindow
set_user_info user_id user_name elo w = record w {
  user_id = user_id;
  user_name = user_name;
  elo = elo;
  lobby = set_player_info user_id user_name elo w.lobby;
}

unfoldable pub enter_lobby : ℕ → Bytes → ℕ → MainWindow → MainWindow
unfolding switch_to
enter_lobby user_id user_name elo w = switch_to lobby_scene (set_user_info user_id user_name elo w)

unfoldable pub enter_battle : ℕ → Bytes → ℕ → MainWindow → MainWindow
unfolding switch_to
enter_battle room_id opponent_name opponent_elo w = switch_to battle_scene (record w {
  battle =
      set_match_info room_id (record { name = w.user_name; elo = w.elo })
        (record { name = opponent_name; elo = opponent_elo }) w.battle;
})

unfoldable pub enter_hero_select : ℕ → Bytes → ℕ → MainWindow → MainWindow
unfolding switch_to
enter_hero_select room_id opponent_name opponent_elo w = switch_to hero_select_scene (record w {
  matched_room_id = room_id;
  matched_opponent_name = opponent_name;
  matched_opponent_elo = opponent_elo;
  hero_select = reset_selection w.hero_select;
})

-- The labels of the two players of the match.
abbrev pub match_info : ℕ → MainWindow → BattleScene
match_info room_id w =
    set_match_info room_id (record { name = w.user_name; elo = w.elo })
      (record { name = w.matched_opponent_name; elo = w.matched_opponent_elo }) w.battle

unfoldable pub start_battle : ℕ → HeroType → HeroType → MainWindow → MainWindow
unfolding switch_to
start_battle room_id player_hero opponent_hero w =
    switch_to battle_scene
      (record w { battle = set_hero_info player_hero opponent_hero (match_info room_id w) })

-- The handlers of the server's messages, on the window.
unfoldable pub on_match_join_response : Reader → MainWindow → MainWindow
on_match_join_response reader w = elim (decode_match_join_response reader) [
  | none ↦ record w {
    lobby = show_match_join_rejected (text "Malformed match join response") w.lobby;
  }
  | some (response, _) ↦
      if not response.accepted
      then record w { lobby = show_match_join_rejected response.error_message w.lobby }
      else record w { lobby = show_matchmaking_queued w.lobby }
]

unfoldable pub on_match_found : Reader → MainWindow → MainWindow
unfolding enter_hero_select
on_match_found reader w = elim (decode_match_found reader) [
  | none ↦ w
  | some (n, _) ↦ enter_hero_select n.room_id n.opponent_user_name n.opponent_elo w
]

unfoldable pub on_hero_select_response : Reader → MainWindow → MainWindow
on_hero_select_response reader w = elim (decode_hero_select_response reader) [
  | none ↦ record w {
    hero_select = show_selection_rejected (text "Malformed hero selection response") w.hero_select;
  }
  | some (response, _) ↦
      if not response.accepted
      then record w { hero_select = show_selection_rejected response.error_message w.hero_select }
      else record w { hero_select = show_selection_accepted w.hero_select }
]

unfoldable pub on_room_closed : Reader → MainWindow → MainWindow
unfolding switch_to
on_room_closed reader w = elim (decode_room_closed reader) [
  | none ↦ w
  | some (n, _) ↦
      if not (n.room_id == w.matched_room_id)
      then w
      else switch_to lobby_scene (record w {
        matched_room_id = 0;
        matched_opponent_name = [];
        matched_opponent_elo = 0;
        lobby = show_room_closed n.reason w.lobby;
      })
]

unfoldable pub on_battle_start : Reader → MainWindow → MainWindow
unfolding start_battle
on_battle_start reader w = elim (decode_battle_start reader) [
  | none ↦ w
  | some (n, _) ↦
      if not (n.room_id == w.matched_room_id)
      then w
      else start_battle n.room_id n.player_hero n.opponent_hero w
]

unfoldable pub on_battle_state : Reader → MainWindow → MainWindow
on_battle_state reader w = elim (decode_battle_state reader) [
  | none ↦ w
  | some (n, _) ↦ if not (n.room_id == w.matched_room_id) then w else record w {
    battle = show_battle_state n.player_health n.opponent_health n.player_turn w.battle;
  }
]

unfoldable pub on_battle_result : Reader → MainWindow → MainWindow
on_battle_result reader w = elim (decode_battle_result reader) [
  | none ↦ w
  | some (n, _) ↦
      if not (n.room_id == w.matched_room_id)
      then w
      else (let rated = set_user_info w.user_id w.user_name n.player_elo w in
          record rated { battle = show_battle_result n.won (match_info n.room_id rated) })
]

unfoldable pub on_match_cancel_response : Reader → MainWindow → MainWindow
on_match_cancel_response reader w = elim (decode_match_cancel_response reader) [
  | none ↦ if is_lobby w.current then record w { lobby = show_matchmaking_ready w.lobby } else w
  | some _ ↦
      if not (is_lobby w.current) then w else record w { lobby = show_matchmaking_ready w.lobby }
]

abbrev pub with_window : (MainWindow → MainWindow) → GameClient MainWindow → GameClient MainWindow
with_window f c = record c { outside = f c.outside }

-- A request is sent where it can be encoded.
abbrev pub send_request :
    MsgType
    → Option Writer
    → (GameClient MainWindow → GameClient MainWindow)
    → GameClient MainWindow
    → GameClient MainWindow
send_request msg_type none failed c = failed c
send_request msg_type (some payload) failed c = send_message msg_type payload c

-- What `initUi` connects the signals of the lobby to.
unfoldable pub on_lobby_signal : LobbySignal → GameClient MainWindow → GameClient MainWindow
unfolding send_message
on_lobby_signal match_requested c =
    send_request msg_match_join_req (encode_match_join_request (record {}) [])
      (with_window (λ w. record w {
        lobby = show_match_join_rejected (text "Failed to encode match request") w.lobby;
      }))
      c
on_lobby_signal match_cancel_requested c =
    send_request msg_match_cancel_req (encode_match_cancel_request (record {}) []) (λ d. d) c

-- Clicks on buttons that are enabled, with the signals that they emit.
unfoldable pub click_match : GameClient MainWindow → GameClient MainWindow
unfolding on_match_button_clicked on_lobby_signal
click_match c =
    let (lobby, signal) = on_match_button_clicked c.outside.lobby in
    let clicked = on_lobby_signal signal (with_window (λ w. record w { lobby = lobby }) c) in
    if c.outside.lobby.match_enabled then clicked else c

unfoldable pub click_hero : HeroType → GameClient MainWindow → GameClient MainWindow
unfolding select_hero
click_hero hero_type c =
    if c.outside.hero_select.heroes_enabled
    then with_window (λ w. record w { hero_select = select_hero hero_type w.hero_select }) c
    else c

abbrev pub on_hero_confirmed : Option HeroType → GameClient MainWindow → GameClient MainWindow
on_hero_confirmed none c = c
on_hero_confirmed (some hero_type) c =
    send_request msg_hero_select_req
      (encode_hero_select_request (record { hero_type = hero_type }) [])
      (with_window (λ w. record w {
        hero_select =
            show_selection_rejected (text "Failed to encode hero selection") w.hero_select;
      }))
      c

unfoldable pub click_confirm : GameClient MainWindow → GameClient MainWindow
unfolding on_confirm_clicked send_message
click_confirm c =
    let (scene, confirmed) = on_confirm_clicked c.outside.hero_select in
    let clicked =
      on_hero_confirmed confirmed (with_window (λ w. record w { hero_select = scene }) c) in
    if c.outside.hero_select.confirm_enabled then clicked else c

unfoldable pub click_attack : GameClient MainWindow → GameClient MainWindow
unfolding send_message
click_attack c =
    let clicked =
      send_request msg_battle_attack_req (encode_battle_attack_request (record {}) []) (λ d. d)
        (with_window (λ w. record w { battle = on_attack_clicked w.battle }) c) in
    if c.outside.battle.attack_enabled then clicked else c

unfoldable pub click_return : GameClient MainWindow → GameClient MainWindow
unfolding switch_to
click_return c =
    let clicked =
      with_window
        (λ w. switch_to lobby_scene (record w {
          battle = on_return_clicked w.battle;
          lobby = show_matchmaking_ready w.lobby;
        }))
        c in
    if c.outside.battle.return_enabled then clicked else c
