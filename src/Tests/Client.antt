-- ===== src/Tests/Client.antt =====
-- The client of client/ArenaClient/ at concrete inputs.
use arena_game.Prelude.{
  ◌≡◌, ◌≢◌, ◌⊎◌, ◌≤◌, ◌++◌, false, refl, true, some, List, [], ◌∷◌, All, length, take, drop, arith,
}
use arena_game.Prelude.Text.{text}
use arena_game.Wire.Protocol.{header_size, msg_hero_select_req, msg_login_req}
use arena_game.Wire.Messages.{
  warrior, mage, archer, BattleStateNotification, BattleResultNotification,
}
use arena_game.Wire.Messages.Accounts.{decode_login_request}
use arena_game.Wire.Messages.Matching.{encode_hero_select_request}
use arena_game.Wire.Messages.Battle.{encode_battle_state, encode_battle_result}
use arena_game.Wire.Messages.RoundTrip.Battle.{FitsBattleState}
use arena_game.Wire.Stream.Reads.{result}
use arena_game.Client.Scenes.{no_action, your_turn, victory, new_hero_select}
use arena_game.Client.Window.{
  MainWindow, switch_to, on_battle_state, on_battle_result, click_confirm,
}
use arena_game.Client.Window.Agreement.{on_battle_state-encode, on_battle_result-encode}
use arena_game.Client.Window.Invariant.{IsConsistent, battle_state}
use arena_game.Client.Window.Clicks.{
  login_clicked, socket_connected, IsOffered, Event, match_clicked, confirm_clicked, hero_clicked,
  received, run_events, run_events-IsConsistent, click_confirm-sent,
}
use arena_game.Client.Login.{on_login_clicked, on_socket_connected}
use arena_game.Client.Login.Pending.{on_login_clicked-on_connected}
use arena_game.Client.Startup.{new_window, main_window, init_ui, setup_network_handlers}
use arena_game.Wire.Stream.{
  Bytes, Reader, Writer, reader_of, write_bytes, write_u8, write_u64, write_u16, write_u32,
  write_unsigned_loop, read_u16, read_u32, read_unsigned, read_unsigned_loop, has,
}
use arena_game.Server.State.{frame}
use arena_game.Server.Frames.Messages.{Message, Fits, IsPartial, frame_of, length-frame}
use arena_game.Server.Frames.Delivery.{stream}
use arena_game.Client.Network.{
  GameClient, connected, is_connected, Handler, make_client, register_handler, read_header,
  header_of, receive_all, on_ready_read,
}
use arena_game.Client.Network.Delivery.{after}
use arena_game.Client.Network.Chunks.{concat, receive_all-stream}
use arena_game.Client.Network.Progress.{is_bad_header, IsStuck, reconnected, on_ready_read-IsStuck}

-- The scenes are the readers that the handlers were given.
abbrev keep_reader : Handler (List Reader)
keep_reader reader (socket, outside) = (socket, reader ∷ outside)

abbrev client : GameClient (List Reader)
client = register_handler 0x0030 keep_reader (make_client [])

abbrev hello : Message
hello = record { msg_type = 0x0030; payload = text "hello" }

abbrev unknown : Message
unknown = record { msg_type = 7; payload = text "?" }

messages-Fits : All Fits (hello ∷ unknown ∷ [])
unfolding text
messages-Fits = (
  record { type_fits = omega arith; payload_fits = ground arith },
  (record { type_fits = omega arith; payload_fits = ground arith }, tt),
)

-- The frames arrive in pieces of 3 and 9 bytes and the rest.
abbrev bytes : Bytes
bytes = stream (hello ∷ unknown ∷ [])

abbrev pieces : List Bytes
pieces = take 3 bytes ∷ take 9 (drop 3 bytes) ∷ drop 12 bytes ∷ []

together : client.recv_buf ++ concat pieces ≡ bytes
unfolding text frame register_handler write_bytes write_u16 write_u32 write_unsigned_loop
together = refl

hello-IsPartial : IsPartial hello client.recv_buf
unfolding register_handler
hello-IsPartial = record {
  rest = frame_of hello;
  shape = refl;
  missing = omega (arith, length-frame hello);
}

receive_all-stream_example :
    receive_all pieces client ≡ some (after (hello ∷ unknown ∷ []) [] client)
receive_all-stream_example =
    receive_all-stream pieces (hello ∷ unknown ∷ []) client messages-Fits hello-IsPartial together

-- A client that has read the start of a frame of no bytes.
abbrev confused : GameClient (List Reader)
confused = record client { recv_buf = 0 ∷ 0 ∷ 0 ∷ 0 ∷ 0 ∷ 0 ∷ [] }

confused-long : header_size ≤ length confused.recv_buf
confused-long = ground arith

confused-bad : is_bad_header (header_of confused.recv_buf) ≡ true
unfolding header_of read_header read_u16 read_u32 read_unsigned read_unsigned_loop has
confused-bad = refl

on_ready_read-IsStuck_example :
    (d : GameClient (List Reader)) × (on_ready_read (frame_of hello) confused ≡ some d)
    × IsStuck confused (some d)
    × IsStuck d (on_ready_read (frame_of hello) (reconnected (text "host") 9999 d))
on_ready_read-IsStuck_example =
    on_ready_read-IsStuck (frame_of hello) (frame_of hello) (text "host") 9999 confused
      confused-long confused-bad

-- The window of a player who was matched into room 7.
abbrev matched : MainWindow
matched = record new_window { matched_room_id = 7; user_name = text "al"; elo = 1200 }

abbrev state_7 : BattleStateNotification
state_7 = record { room_id = 7; player_health = 80; opponent_health = 55; player_turn = true }

abbrev state_bytes : Bytes
state_bytes = 7 ∷ 0 ∷ 0 ∷ 0 ∷ 0 ∷ 0 ∷ 0 ∷ 0 ∷ 80 ∷ 0 ∷ 55 ∷ 0 ∷ 1 ∷ []

state_7-FitsBattleState : FitsBattleState state_7
state_7-FitsBattleState = record {
  room_id_fits = omega arith;
  player_health_fits = omega arith;
  opponent_health_fits = omega arith;
}

state_7-encoded : encode_battle_state state_7 [] ≡ some state_bytes
unfolding encode_battle_state write_u8 write_u16 write_u64 write_unsigned_loop
state_7-encoded = refl

on_battle_state-encode_example :
    let shown : MainWindow = on_battle_state (reader_of state_bytes) matched in
    (shown.battle.player_health ≡ 80)
    × (shown.battle.opponent_health ≡ 55)
    × (shown.battle.attack_enabled ≡ true)
    × (shown.battle.battle_status ≡ your_turn)
    × (shown.current ≡ matched.current)
on_battle_state-encode_example =
    on_battle_state-encode state_7 state_bytes matched state_7-FitsBattleState state_7-encoded refl

abbrev result_7 : BattleResultNotification
result_7 = record { room_id = 7; won = true; player_elo = 1225 }

abbrev result_bytes : Bytes
result_bytes = 7 ∷ 0 ∷ 0 ∷ 0 ∷ 0 ∷ 0 ∷ 0 ∷ 0 ∷ 1 ∷ 201 ∷ 4 ∷ 0 ∷ 0 ∷ []

result_7-encoded : encode_battle_result result_7 [] ≡ some result_bytes
unfolding encode_battle_result write_u8 write_u32 write_u64 write_unsigned_loop
result_7-encoded = refl

on_battle_result-encode_example :
    let shown : MainWindow = on_battle_result (reader_of result_bytes) matched in
    (shown.elo ≡ 1225)
    × (shown.lobby.player.elo ≡ 1225)
    × (shown.battle.player.elo ≡ 1225)
    × (shown.battle.battle_status ≡ victory)
    × (shown.battle.return_enabled ≡ true)
    × (shown.battle.attack_enabled ≡ false)
on_battle_result-encode_example =
    on_battle_result-encode result_7 result_bytes matched (omega arith) (omega arith)
      result_7-encoded refl

-- No space stands around the name that is typed.
abbrev trimmed : Bytes → Bytes
trimmed name = name

-- The user logs in, asks for a match, chooses the mage and confirms; a state of the battle arrives.
abbrev events : List Event
events =
    login_clicked (text "al") (text "al")
    ∷ socket_connected
    ∷ match_clicked
    ∷ hero_clicked mage
    ∷ confirm_clicked
    ∷ received battle_state (reader_of state_bytes)
    ∷ []

events-IsOffered : All IsOffered events
events-IsOffered = (tt, (tt, (tt, (((λ e. ground (arith, e)), omega arith), (tt, (tt, tt))))))

main_window-IsConsistent : IsConsistent main_window.outside
unfolding main_window init_ui setup_network_handlers register_handler switch_to
main_window-IsConsistent = record {
  offering = record { match_text = λ e. refl };
  choosing = record { playable = omega arith; confirm = λ e. absurd (ground (arith, e)) };
}

run_events-IsConsistent_example : IsConsistent (run_events trimmed events main_window).outside
run_events-IsConsistent_example =
    run_events-IsConsistent trimmed events main_window events-IsOffered main_window-IsConsistent

-- The mage is selected, and the client is connected.
abbrev chooser : GameClient MainWindow
chooser =
    record (make_client (record new_window {
      hero_select = record new_hero_select { selected_hero = mage; confirm_enabled = true };
    })) { socket = record { state = connected; written = [] } }

chooser-IsConsistent : IsConsistent chooser.outside
chooser-IsConsistent = record {
  offering = record { match_text = λ e. refl };
  choosing = record { playable = omega arith; confirm = λ e. ((λ h. ground (arith, h)), refl) };
}

chooser-online : is_connected chooser ≡ true
unfolding is_connected
chooser-online = refl

click_confirm-sent_example :
    let clicked : GameClient MainWindow = click_confirm chooser in
    (payload : Writer) × (encode_hero_select_request (record { hero_type = mage }) []
      ≡ some payload)
    × (clicked.socket.written ≡ [] ++ frame msg_hero_select_req payload)
    × ((mage ≡ warrior) ⊎ (mage ≡ mage) ⊎ (mage ≡ archer))
    × (clicked.outside.hero_select.confirm_enabled ≡ false)
    × (clicked.outside.hero_select.heroes_enabled ≡ false)
click_confirm-sent_example = click_confirm-sent chooser chooser-IsConsistent refl chooser-online

main_window-offline : is_connected main_window ≡ false
unfolding is_connected main_window init_ui setup_network_handlers register_handler switch_to
main_window-offline = refl

main_window-free : main_window.outside.login.pending_action ≡ no_action
unfolding main_window init_ui setup_network_handlers register_handler switch_to
main_window-free = refl

name-IsGiven : text "al" ≢ []
unfolding text
name-IsGiven e = ground (arith, e)

name-short : length (text "al") ≤ 1024
unfolding text
name-short = omega arith

on_login_clicked-on_connected_example :
    let clicked : GameClient MainWindow =
      on_login_clicked trimmed (text "al") (text "al") main_window in
    let online : GameClient MainWindow = on_socket_connected clicked in
    (clicked.socket.written ≡ main_window.socket.written)
    × ((payload : Writer) × (result (decode_login_request (reader_of payload))
          ≡ some (record { user_name = text "al"; password = text "al" }))
        × (online.socket.written ≡ main_window.socket.written ++ frame msg_login_req payload))
    × (online.outside.login.pending_action ≡ no_action)
    × (online.outside.login.pending_password ≡ [])
    × ((on_socket_connected online).socket.written ≡ online.socket.written)
on_login_clicked-on_connected_example =
    on_login_clicked-on_connected trimmed (text "al") (text "al") main_window main_window-offline
      main_window-free name-IsGiven name-IsGiven name-short name-short
