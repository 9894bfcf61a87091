-- ===== src/Server/Fighting.antt =====
-- server/game/GameServer.cc: `handleBattleAttack`, `finishBattle` and what they send.
pub mod Ending
use arena_game.Prelude.{
  ℕ, Bool, true, false, not, ◌||◌, Option, none, some, List, [], ◌==◌, nat_eq, if◌then◌else◌,
}
use arena_game.Wire.Protocol.{msg_battle_state_ntf, msg_battle_result_ntf}
use arena_game.Wire.Stream.{Reader}
use arena_game.Wire.Stream.Reads.{result}
use arena_game.Wire.Messages.{
  BattleAttackRequest, BattleStateNotification, BattleResultNotification,
}
use arena_game.Wire.Messages.Battle.{
  decode_battle_attack_request, encode_battle_state, encode_battle_result,
}
use arena_game.Game.Account.{AccountRepository, update_elo_pair}
use arena_game.Game.Session.{
  PlayerSession, SessionService, find_by_connection, find_connection_by_user_id, modify_session,
  clear_room,
}
use arena_game.Game.Room as Rooms
use arena_game.Game.Battle as Battles
use arena_game.Game.Battle.{
  BattleState, BattleService, BattleActionResult, BattleEloResult, calculate_elo, attack,
}
use arena_game.Server.State.{GameServer, World, send_encoded}

abbrev pub first_view : BattleState → BattleStateNotification
first_view state = record {
  room_id = state.room_id;
  player_health = state.first_health;
  opponent_health = state.second_health;
  player_turn = state.active_user_id == state.first_user_id;
}

abbrev pub second_view : BattleState → BattleStateNotification
second_view state = record {
  room_id = state.room_id;
  player_health = state.second_health;
  opponent_health = state.first_health;
  player_turn = state.active_user_id == state.second_user_id;
}

unfoldable pub send_battle_state_notification : BattleState → GameServer → GameServer
send_battle_state_notification state s =
    let first_conn = find_connection_by_user_id state.first_user_id s.sessions in
    let second_conn = find_connection_by_user_id state.second_user_id s.sessions in
    send_encoded second_conn msg_battle_state_ntf (encode_battle_state (second_view state) [])
      (send_encoded first_conn msg_battle_state_ntf (encode_battle_state (first_view state) []) s)

-- The result for one player, who may have left.
unfoldable pub send_result_to : ℕ → Option PlayerSession → ℕ → Bool → GameServer → GameServer
send_result_to conn_id none room_id won s = s
send_result_to conn_id (some session) room_id won s =
    send_encoded conn_id msg_battle_result_ntf
      (encode_battle_result (record { room_id = room_id; won = won; player_elo = session.elo }) [])
      s

unfoldable pub send_battle_result_notification : BattleState → GameServer → GameServer
unfolding send_result_to
send_battle_result_notification state s =
    let first_conn = find_connection_by_user_id state.first_user_id s.sessions in
    let second_conn = find_connection_by_user_id state.second_user_id s.sessions in
    send_result_to second_conn (find_by_connection second_conn s.sessions) state.room_id
      (state.winner_user_id == state.second_user_id)
      (send_result_to first_conn (find_by_connection first_conn s.sessions) state.room_id
        (state.winner_user_id == state.first_user_id) s)

abbrev pub with_elo : ℕ → PlayerSession → PlayerSession
with_elo elo session = record session { elo = elo }

-- The writes to the two sessions after `updateEloPair`.
unfoldable pub rate_sessions :
    ℕ → ℕ → BattleEloResult → AccountRepository × Bool → GameServer → GameServer
rate_sessions first_conn second_conn elo (accounts, false) s = record s { accounts = accounts }
rate_sessions first_conn second_conn elo (accounts, true) s = record s {
  accounts = accounts;
  sessions =
      modify_session second_conn (with_elo elo.second_elo)
        (modify_session first_conn (with_elo elo.first_elo) s.sessions);
}

-- The first half of `finishBattle`, when the two sessions were looked up.
unfoldable pub rate_players :
    BattleState
    → World
    → ℕ
    → ℕ
    → Option PlayerSession
    → Option PlayerSession
    → GameServer
    → GameServer
unfolding rate_sessions
rate_players state world first_conn second_conn none second s = s
rate_players state world first_conn second_conn (some first) none s = s
rate_players state world first_conn second_conn (some first) (some second) s =
    let elo = calculate_elo state first.elo second.elo in
    rate_sessions first_conn second_conn elo
      (update_elo_pair first.user_id elo.first_elo second.user_id elo.second_elo world.save_outcome
        s.accounts)
      s

-- The last lines of `finishBattle`.
unfoldable pub close_battle : BattleState → GameServer → GameServer
close_battle state s = record s {
  sessions = clear_room state.second_user_id (clear_room state.first_user_id s.sessions);
  rooms = (Rooms.remove state.room_id s.rooms).0;
  battles = (Battles.remove state.room_id s.battles).0;
}

unfoldable pub finish_battle : BattleState → World → GameServer → GameServer
unfolding rate_players close_battle
finish_battle state world s =
    let first_conn = find_connection_by_user_id state.first_user_id s.sessions in
    let second_conn = find_connection_by_user_id state.second_user_id s.sessions in
    close_battle state (
      send_battle_result_notification state (
        rate_players state world first_conn second_conn (find_by_connection first_conn s.sessions)
          (find_by_connection second_conn s.sessions) s))

-- `handleBattleAttack` after `battleService_.attack`.
unfoldable pub answer_attack : BattleService × BattleActionResult → World → GameServer → GameServer
answer_attack (battles, action) world s =
    if not action.accepted
    then record s { battles = battles }
    else (let notified =
          send_battle_state_notification action.state (record s { battles = battles }) in
        if action.finished then finish_battle action.state world notified else notified)

-- `handleBattleAttack` once the session is looked up.
unfoldable pub attack_session : Option PlayerSession → World → GameServer → GameServer
unfolding answer_attack
attack_session none world s = s
attack_session (some session) world s =
    if session.room_id == 0
    then s
    else answer_attack (attack session.room_id session.user_id s.battles) world s

unfoldable pub handle_battle_attack : ℕ → Reader → World → GameServer → GameServer
unfolding attack_session
handle_battle_attack conn_id reader world s = elim (result (decode_battle_attack_request reader)) [
  | none ↦ s
  | some request ↦ attack_session (find_by_connection conn_id s.sessions) world s
]
