-- ===== src/Client/Startup.antt =====
-- client/ArenaClient/mainwindow.cpp: the main window when its constructor is done, with the handlers
-- that it and client/ArenaClient/scenes/LoginScene.cc have registered.
use arena_game.Prelude.{[]}
use arena_game.Wire.Protocol.{
  msg_login_rsp, msg_register_rsp, msg_match_join_rsp, msg_match_found_ntf, msg_match_cancel_rsp,
  msg_hero_select_rsp, msg_battle_start_ntf, msg_room_closed_ntf, msg_battle_state_ntf,
  msg_battle_result_ntf,
}
use arena_game.Wire.Stream.{Reader}
use arena_game.Client.Network.{GameClient, Handler, make_client, register_handler}
use arena_game.Client.Scenes.{new_login, new_lobby, new_hero_select, new_battle_scene}
use arena_game.Client.Login.{on_login_response, on_register_response}
use arena_game.Client.Window.{
  MainWindow, login_scene, switch_to, on_match_join_response, on_match_found,
  on_hero_select_response, on_room_closed, on_battle_start, on_battle_state, on_battle_result,
  on_match_cancel_response,
}

-- The scenes and the members before the constructor; the stack shows its first widget.
abbrev pub new_window : MainWindow
new_window = record {
  current = login_scene;
  login = new_login;
  lobby = new_lobby;
  hero_select = new_hero_select;
  battle = new_battle_scene;
  user_id = 0;
  user_name = [];
  elo = 0;
  matched_room_id = 0;
  matched_opponent_name = [];
  matched_opponent_elo = 0;
}

-- A handler that only changes the window.
abbrev pub on_window : (Reader → MainWindow → MainWindow) → Handler MainWindow
on_window f reader (socket, w) = (socket, f reader w)

-- `setupNetworkHandlers` of the login scene.
unfoldable pub setup_network_handlers : GameClient MainWindow → GameClient MainWindow
unfolding register_handler
setup_network_handlers c =
    register_handler msg_register_rsp (on_window on_register_response)
      (register_handler msg_login_rsp (on_window on_login_response) c)

unfoldable pub init_ui : GameClient MainWindow → GameClient MainWindow
unfolding register_handler switch_to setup_network_handlers
init_ui c =
    let c0 = setup_network_handlers c in
    let c1 = register_handler msg_match_join_rsp (on_window on_match_join_response) c0 in
    let c2 = register_handler msg_match_found_ntf (on_window on_match_found) c1 in
    let c3 = register_handler msg_hero_select_rsp (on_window on_hero_select_response) c2 in
    let c4 = register_handler msg_room_closed_ntf (on_window on_room_closed) c3 in
    let c5 = register_handler msg_battle_start_ntf (on_window on_battle_start) c4 in
    let c6 = register_handler msg_battle_state_ntf (on_window on_battle_state) c5 in
    let c7 = register_handler msg_battle_result_ntf (on_window on_battle_result) c6 in
    let c8 = register_handler msg_match_cancel_rsp (on_window on_match_cancel_response) c7 in
    record c8 { outside = switch_to login_scene c8.outside }

-- `initNetwork`, then `initUi`
unfoldable pub main_window : GameClient MainWindow
unfolding init_ui
main_window = init_ui (make_client new_window)
