-- ===== src/Client/Window/Invariant.antt =====
-- The buttons of client/ArenaClient/ through the messages that the window of mainwindow.cpp handles.
use arena_game.Prelude.{
  ℕ, ◌≤◌, ◌≡◌, ◌≢◌, refl, sym, subst, Bool, true, not, Option, none, some, ◌==◌, nat_eq,
  if◌then◌else◌, arith, inl, inr, Option-cases, if_cases,
}
use arena_game.Wire.Stream.{Bytes, Reader}
use arena_game.Wire.Messages.{no_hero, archer}
use arena_game.Wire.Messages.Matching.{
  decode_match_found, decode_match_join_response, decode_hero_select_response, decode_room_closed,
  decode_match_cancel_response,
}
use arena_game.Wire.Messages.Battle.{decode_battle_start, decode_battle_state, decode_battle_result}
use arena_game.Client.Scenes.{
  LobbyScene, HeroSelectScene, MatchStatus, start_matchmaking, cancel_matchmaking, lobby_ready,
  show_matchmaking_queued, set_player_info, show_room_closed, show_selection_accepted,
  show_selection_rejected, reset_selection,
}
use arena_game.Wire.Messages.{empty_login_response, empty_register_response}
use arena_game.Wire.Messages.Accounts.{decode_login_response, decode_register_response}
use arena_game.Client.Login.{on_login_response, on_register_response}
use arena_game.Client.Window.{
  enter_lobby, MainWindow, is_lobby, switch_to, enter_hero_select, start_battle,
  on_match_join_response, on_match_found, on_hero_select_response, on_room_closed, on_battle_start,
  on_battle_state, on_battle_result, on_match_cancel_response,
}

-- An enabled match button asks for what can be done: to join the queue or to leave it.
pub record IsOffering (s : LobbyScene) : Type 0 where
  pub match_text :
      s.match_enabled ≡ true
      → s.match_button ≡ (if s.matchmaking_queued then cancel_matchmaking else start_matchmaking)

-- The selection is none or one of the three heroes, and can be confirmed only where there is one and
-- it can be changed still.
pub record IsChoosing (s : HeroSelectScene) : Type 0 where
  pub playable : s.selected_hero ≤ archer
  pub confirm : s.confirm_enabled ≡ true → (s.selected_hero ≢ no_hero) × (s.heroes_enabled ≡ true)

pub record IsConsistent (w : MainWindow) : Type 0 where
  pub offering : IsOffering w.lobby
  pub choosing : IsChoosing w.hero_select

pub lobby_ready-IsOffering :
    (status : MatchStatus) (s : LobbyScene) → IsOffering (lobby_ready status s)
lobby_ready-IsOffering status s = record { match_text = λ e. refl }

queued-IsOffering : (s : LobbyScene) → IsOffering (show_matchmaking_queued s)
queued-IsOffering s = record { match_text = λ e. refl }

pub rejected-IsChoosing :
    (error_message : Bytes) (s : HeroSelectScene)
    → IsChoosing s
    → IsChoosing (show_selection_rejected error_message s)
rejected-IsChoosing error_message s c = record {
  playable = c.playable;
  confirm = λ e. (λ h. ground (arith, e, h), refl);
}

accepted-IsChoosing : (s : HeroSelectScene) → IsChoosing s → IsChoosing (show_selection_accepted s)
accepted-IsChoosing s c = record {
  playable = c.playable;
  confirm = λ e. absurd (ground (arith, e));
}

reset-IsChoosing : (s : HeroSelectScene) → IsChoosing (reset_selection s)
reset-IsChoosing s = record { playable = omega arith; confirm = λ e. absurd (ground (arith, e)) }

pub relabelled-IsOffering :
    (user_id : ℕ) (user_name : Bytes) (elo : ℕ) (s : LobbyScene)
    → IsOffering s
    → IsOffering (set_player_info user_id user_name elo s)
relabelled-IsOffering user_id user_name elo s o = record { match_text = o.match_text }

-- A handler refuses what it cannot decode, and tests what it decodes.
handled :
    {A : Type 0} (P : MainWindow → Type 0) (message : Option (A × Reader)) (refused : MainWindow)
    (test : A → Bool) (f g : A → MainWindow)
    → P refused
    → ((n : A) → P (f n))
    → ((n : A) → P (g n))
    → P (elim message [ none ↦ refused | some (n, _) ↦ if test n then f n else g n ])
handled P none refused test f g p q r = p
handled P (some (n, _)) refused test f g p q r =
    if_cases P (test n) (f n) (g n) (λ _. q n) (λ _. r n)

-- A change of one of the two scenes.
pub offer :
    {w v : MainWindow}
    → IsConsistent w
    → IsOffering v.lobby
    → v.hero_select ≡ w.hero_select
    → IsConsistent v
offer c o e = record { offering = o; choosing = subst IsChoosing (sym e) c.choosing }

pub choose :
    {w v : MainWindow}
    → IsConsistent w
    → IsChoosing v.hero_select
    → v.lobby ≡ w.lobby
    → IsConsistent v
choose c h e = record { offering = subst IsOffering (sym e) c.offering; choosing = h }

-- A message, by its handler.
pub data Message : Type 0 where
  match_join_response match_found hero_select_response room_closed battle_start battle_state
        battle_result match_cancel_response login_response register_response :
      Message

abbrev pub handle : Message → Reader → MainWindow → MainWindow
handle match_join_response = on_match_join_response
handle match_found = on_match_found
handle hero_select_response = on_hero_select_response
handle room_closed = on_room_closed
handle battle_start = on_battle_start
handle battle_state = on_battle_state
handle battle_result = on_battle_result
handle match_cancel_response = on_match_cancel_response
handle login_response = on_login_response
handle register_response = on_register_response

pub handle-IsConsistent :
    (m : Message) (reader : Reader) (w : MainWindow)
    → IsConsistent w
    → IsConsistent (handle m reader w)
unfolding on_login_response on_register_response enter_lobby on_match_join_response on_match_found
    on_hero_select_response on_room_closed on_battle_start on_battle_state on_battle_result
    on_match_cancel_response enter_hero_select start_battle switch_to
handle-IsConsistent match_join_response reader w c =
    handled IsConsistent (decode_match_join_response reader) _ (λ r. not r.accepted) _ _
      (offer c (lobby_ready-IsOffering _ w.lobby) refl)
      (λ n. offer c (lobby_ready-IsOffering _ w.lobby) refl)
      (λ n. offer c (queued-IsOffering w.lobby) refl)
handle-IsConsistent match_found reader w c = elim (Option-cases (decode_match_found reader)) [
  | inl e ↦ rw (e, on_match_found) c
  | inr ((n, rest), e) ↦ rw (e, on_match_found) (choose c (reset-IsChoosing w.hero_select) refl)
]
handle-IsConsistent hero_select_response reader w c =
    handled IsConsistent (decode_hero_select_response reader) _ (λ r. not r.accepted) _ _
      (choose c (rejected-IsChoosing _ w.hero_select c.choosing) refl)
      (λ n. choose c (rejected-IsChoosing _ w.hero_select c.choosing) refl)
      (λ n. choose c (accepted-IsChoosing w.hero_select c.choosing) refl)
handle-IsConsistent room_closed reader w c =
    handled IsConsistent (decode_room_closed reader) _ (λ n. not (n.room_id == w.matched_room_id)) _
      _ c (λ n. c)
      (λ n.
        offer c
          (relabelled-IsOffering _ _ _ (show_room_closed n.reason w.lobby)
            (lobby_ready-IsOffering _ w.lobby))
          refl)
handle-IsConsistent battle_start reader w c =
    handled IsConsistent (decode_battle_start reader) _ (λ n. not (n.room_id == w.matched_room_id))
      _ _ c (λ n. c) (λ n. offer c c.offering refl)
handle-IsConsistent battle_state reader w c =
    handled IsConsistent (decode_battle_state reader) _ (λ n. not (n.room_id == w.matched_room_id))
      _ _ c (λ n. c) (λ n. offer c c.offering refl)
handle-IsConsistent battle_result reader w c =
    handled IsConsistent (decode_battle_result reader) _ (λ n. not (n.room_id == w.matched_room_id))
      _ _ c (λ n. c) (λ n. offer c (relabelled-IsOffering _ _ _ w.lobby c.offering) refl)
handle-IsConsistent match_cancel_response reader w c =
    elim (Option-cases (decode_match_cancel_response reader)) [
      | inl e ↦
          rw (e, on_match_cancel_response)
            (if_cases IsConsistent (is_lobby w.current) _ w
              (λ _. offer c (lobby_ready-IsOffering _ w.lobby) refl) (λ _. c))
      | inr ((n, rest), e) ↦
          rw (e, on_match_cancel_response)
            (if_cases IsConsistent (not (is_lobby w.current)) w _ (λ _. c)
              (λ _. offer c (lobby_ready-IsOffering _ w.lobby) refl))
    ]
handle-IsConsistent login_response reader w c =
    handled IsConsistent (decode_login_response empty_login_response reader) _ (λ r. not r.success)
      _ _ (offer c c.offering refl) (λ n. offer c c.offering refl)
      (λ n.
        offer c
          (relabelled-IsOffering _ _ _ (set_player_info n.user_id n.user_name n.elo w.lobby)
            (relabelled-IsOffering _ _ _ w.lobby c.offering))
          refl)
handle-IsConsistent register_response reader w c =
    handled IsConsistent (decode_register_response empty_register_response reader) _
      (λ r. not r.success) _ _ (offer c c.offering refl) (λ n. offer c c.offering refl)
      (λ n. offer c c.offering refl)
