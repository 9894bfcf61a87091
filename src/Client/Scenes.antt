-- ===== src/Client/Scenes.antt =====
-- client/ArenaClient/scenes/: LobbyScene.cc, HeroSelectScene.cc, BattleScene.cc and
-- LoginScene.cc. A scene is what
-- its labels show and which of its buttons are enabled; a text is a constructor with what it shows.
use arena_game.Prelude.{
  ℕ, Bool, true, false, not, Option, none, some, [], ◌==◌, nat_eq, if◌then◌else◌,
}
use arena_game.Wire.Stream.{Bytes}
use arena_game.Wire.Messages.{HeroType, no_hero, warrior, mage, archer}

-- A player's name with the rating.
pub record PlayerLabel : Type 0 where
  pub name : Bytes
  pub elo : ℕ

-- `START MATCHMAKING`, `CANCEL MATCHMAKING`, `REQUESTING...` and `CANCELLING MATCHMAKING...`
pub data MatchButton : Type 0 where
  start_matchmaking cancel_matchmaking requesting cancelling : MatchButton

pub data MatchStatus : Type 0 where
  awaiting_command searching requesting_match cancelling_matchmaking : MatchStatus
  request_failed match_cancelled : Bytes → MatchStatus

pub record LobbyScene : Type 0 where
  pub player : PlayerLabel
  pub player_id : ℕ
  pub match_button : MatchButton
  pub match_enabled : Bool
  pub match_status : MatchStatus
  pub matchmaking_queued : Bool

abbrev pub new_lobby : LobbyScene
new_lobby = record {
  player = record { name = []; elo = 0 };
  player_id = 0;
  match_button = start_matchmaking;
  match_enabled = true;
  match_status = awaiting_command;
  matchmaking_queued = false;
}

abbrev pub set_player_info : ℕ → Bytes → ℕ → LobbyScene → LobbyScene
set_player_info user_id user_name elo s = record s {
  player = record { name = user_name; elo = elo };
  player_id = user_id;
}

abbrev pub lobby_ready : MatchStatus → LobbyScene → LobbyScene
lobby_ready status s = record s {
  matchmaking_queued = false;
  match_enabled = true;
  match_button = start_matchmaking;
  match_status = status;
}

abbrev pub show_matchmaking_ready : LobbyScene → LobbyScene
show_matchmaking_ready = lobby_ready awaiting_command

abbrev pub show_matchmaking_queued : LobbyScene → LobbyScene
show_matchmaking_queued s = record s {
  matchmaking_queued = true;
  match_enabled = true;
  match_button = cancel_matchmaking;
  match_status = searching;
}

abbrev pub show_match_join_rejected : Bytes → LobbyScene → LobbyScene
show_match_join_rejected error_message = lobby_ready (request_failed error_message)

abbrev pub show_room_closed : Bytes → LobbyScene → LobbyScene
show_room_closed reason = lobby_ready (match_cancelled reason)

-- The signals of the lobby.
pub data LobbySignal : Type 0 where
  match_requested match_cancel_requested : LobbySignal

unfoldable pub on_match_button_clicked : LobbyScene → LobbyScene × LobbySignal
on_match_button_clicked s =
    if s.matchmaking_queued
    then (
      record s {
        match_enabled = false;
        match_button = cancelling;
        match_status = cancelling_matchmaking;
      },
      match_cancel_requested,
    )
    else (
      record s {
        match_enabled = false;
        match_button = requesting;
        match_status = requesting_match;
      },
      match_requested,
    )

pub data HeroStatus : Type 0 where
  choose_hero locked waiting_for_server : HeroStatus
  selected : HeroType → HeroStatus
  selection_failed : Bytes → HeroStatus

-- The three hero buttons are enabled and disabled together.
pub record HeroSelectScene : Type 0 where
  pub selected_hero : HeroType
  pub heroes_enabled : Bool
  pub confirm_enabled : Bool
  pub hero_status : HeroStatus

abbrev pub new_hero_select : HeroSelectScene
new_hero_select = record {
  selected_hero = no_hero;
  heroes_enabled = true;
  confirm_enabled = false;
  hero_status = choose_hero;
}

abbrev pub reset_selection : HeroSelectScene → HeroSelectScene
reset_selection s = record {
  selected_hero = no_hero;
  heroes_enabled = true;
  confirm_enabled = false;
  hero_status = choose_hero;
}

abbrev pub show_selection_accepted : HeroSelectScene → HeroSelectScene
show_selection_accepted s = record s {
  heroes_enabled = false;
  confirm_enabled = false;
  hero_status = locked;
}

abbrev pub show_selection_rejected : Bytes → HeroSelectScene → HeroSelectScene
show_selection_rejected error_message s = record s {
  heroes_enabled = true;
  confirm_enabled = not (s.selected_hero == no_hero);
  hero_status = selection_failed error_message;
}

-- The status stays for a number that is no hero.
unfoldable pub select_hero : HeroType → HeroSelectScene → HeroSelectScene
select_hero hero_type s = record s {
  selected_hero = hero_type;
  confirm_enabled = true;
  hero_status =
      if hero_type == warrior
      then selected warrior
      else if hero_type == mage
      then selected mage
      else if hero_type == archer
      then selected archer
      else s.hero_status;
}

-- The click on `CONFIRM HERO`, and the hero of `heroConfirmed` where it is emitted.
unfoldable pub on_confirm_clicked : HeroSelectScene → HeroSelectScene × Option HeroType
on_confirm_clicked s =
    if not (s.selected_hero == no_hero)
    then (
      record s {
        heroes_enabled = false;
        confirm_enabled = false;
        hero_status = waiting_for_server;
      },
      some s.selected_hero,
    )
    else (s, none)

pub data BattleStatus : Type 0 where
  battle_ready your_turn opponent_turn victory defeat : BattleStatus

pub record BattleScene : Type 0 where
  pub room : ℕ
  pub player : PlayerLabel
  pub opponent : PlayerLabel
  pub player_hero : HeroType
  pub opponent_hero : HeroType
  pub player_health : ℕ
  pub opponent_health : ℕ
  pub attack_enabled : Bool
  pub return_enabled : Bool
  pub battle_status : BattleStatus

abbrev pub new_battle_scene : BattleScene
new_battle_scene = record {
  room = 0;
  player = record { name = []; elo = 0 };
  opponent = record { name = []; elo = 0 };
  player_hero = no_hero;
  opponent_hero = no_hero;
  player_health = 0;
  opponent_health = 0;
  attack_enabled = false;
  return_enabled = false;
  battle_status = battle_ready;
}

abbrev pub set_match_info : ℕ → PlayerLabel → PlayerLabel → BattleScene → BattleScene
set_match_info room_id player opponent s = record s {
  room = room_id;
  player = player;
  opponent = opponent;
  battle_status = battle_ready;
}

abbrev pub set_hero_info : HeroType → HeroType → BattleScene → BattleScene
set_hero_info player_hero opponent_hero s = record s {
  player_hero = player_hero;
  opponent_hero = opponent_hero;
}

abbrev pub show_battle_state : ℕ → ℕ → Bool → BattleScene → BattleScene
show_battle_state player_health opponent_health player_turn s = record s {
  player_health = player_health;
  opponent_health = opponent_health;
  attack_enabled = player_turn;
  battle_status = if player_turn then your_turn else opponent_turn;
}

abbrev pub show_battle_result : Bool → BattleScene → BattleScene
show_battle_result won s = record s {
  attack_enabled = false;
  return_enabled = true;
  battle_status = if won then victory else defeat;
}

-- The clicks on the two buttons, before their signals.
abbrev pub on_attack_clicked : BattleScene → BattleScene
on_attack_clicked s = record s { attack_enabled = false }

abbrev pub on_return_clicked : BattleScene → BattleScene
on_return_clicked s = record s { return_enabled = false }

-- `PendingAction`
pub data PendingAction : Type 0 where
  no_action login_action register_action : PendingAction

pub data LoginPage : Type 0 where
  login_page register_page : LoginPage

-- The two labels for the status with their texts.
pub record LoginScene : Type 0 where
  pub pending_action : PendingAction
  pub pending_user_name : Bytes
  pub pending_password : Bytes
  pub page : LoginPage
  pub login_status : Bytes
  pub register_status : Bytes

abbrev pub new_login : LoginScene
new_login = record {
  pending_action = no_action;
  pending_user_name = [];
  pending_password = [];
  page = login_page;
  login_status = [];
  register_status = [];
}

abbrev pub switch_to_register : LoginScene → LoginScene
switch_to_register s = record s { login_status = []; register_status = []; page = register_page }

abbrev pub switch_to_login : LoginScene → LoginScene
switch_to_login s = record s { login_status = []; register_status = []; page = login_page }

abbrev pub is_pending : LoginScene → Bool
is_pending s = elim s.pending_action [
  | no_action ↦ false
  | login_action ↦ true
  | register_action ↦ true
]

-- What waits for the connection, and nothing.
abbrev pub keep_action : PendingAction → Bytes → Bytes → LoginScene → LoginScene
keep_action action user_name password s = record s {
  pending_action = action;
  pending_user_name = user_name;
  pending_password = password;
}

-- `errorOccurred`
unfoldable pub on_error : Bytes → LoginScene → LoginScene
on_error message s =
    let free : LoginScene = record s { pending_action = no_action } in
    elim s.page [
      | login_page ↦ record free { login_status = message }
      | register_page ↦ record free { register_status = message }
    ]
