-- ===== src/Server/Queueing.antt =====
-- server/game/GameServer.cc: `handleMatchJoin`, `handleMatchCancel` and `processMatchmakingTick`.
use arena_game.Prelude.{
  ℕ, Bool, true, false, not, Option, none, some, List, [], ◌∷◌, ◌==◌, nat_eq, if◌then◌else◌,
}
use arena_game.Prelude.Text.{text}
use arena_game.Wire.Protocol.{msg_match_join_rsp, msg_match_cancel_rsp, msg_match_found_ntf}
use arena_game.Wire.Stream.{Bytes, Reader}
use arena_game.Wire.Stream.Reads.{result}
use arena_game.Wire.Messages.{
  ErrorCode, MatchJoinRequest, MatchJoinResponse, MatchCancelRequest, MatchCancelResponse,
  MatchFoundNotification, empty_match_join_response, empty_match_cancel_response, malformed_payload,
  not_authenticated, invalid_state,
}
use arena_game.Wire.Messages.Matching.{
  decode_match_join_request, encode_match_join_response, decode_match_cancel_request,
  encode_match_cancel_response, encode_match_found,
}
use arena_game.Game.Session.{
  PlayerSession, SessionService, find_by_connection, find_connection_by_user_id,
}
use arena_game.Game.MatchQueue.{MatchTicket, MatchQueue}
use arena_game.Game.Matchmaking.{Matchmaking, MatchFoundEvent, join, cancel, tick}
use arena_game.Server.State.{GameServer, World, send_encoded}

abbrev pub join_refused : ErrorCode → Bytes → MatchJoinResponse
join_refused code message = record empty_match_join_response {
  error_code = code;
  error_message = message;
}

abbrev pub ticket_of : PlayerSession → ℕ → MatchTicket
ticket_of session now = record { user_id = session.user_id; elo = session.elo; joined_at = now }

-- `handleMatchJoin` after `matchmakingService_.join`.
unfoldable pub answer_join : MatchQueue × Bool → MatchQueue × MatchJoinResponse
answer_join (q, true) = (q, record empty_match_join_response { accepted = true })
answer_join (q, false) = (q, join_refused invalid_state (text "Already in matchmaking queue"))

-- `handleMatchJoin` once the request is decoded and the session looked up.
unfoldable pub join_session : Option PlayerSession → ℕ → MatchQueue → MatchQueue × MatchJoinResponse
unfolding answer_join
join_session none now q =
    (q, join_refused not_authenticated (text "Login is required before matchmaking"))
join_session (some session) now q =
    if not (session.room_id == 0)
    then (q, join_refused invalid_state (text "Already in a room"))
    else answer_join (join (ticket_of session now) q)

-- The response of `handleMatchJoin`, and the queue after it.
unfoldable pub match_join :
    ℕ → Option MatchJoinRequest → ℕ → SessionService → MatchQueue → MatchQueue × MatchJoinResponse
unfolding join_session
match_join conn_id none now sessions q =
    (q, join_refused malformed_payload (text "Malformed match join payload"))
match_join conn_id (some request) now sessions q =
    join_session (find_by_connection conn_id sessions) now q

unfoldable pub handle_match_join : ℕ → Reader → World → GameServer → GameServer
handle_match_join conn_id reader world s =
    let (q, response) =
      match_join conn_id (result (decode_match_join_request reader)) world.now s.sessions
        s.match_queue in
    send_encoded conn_id msg_match_join_rsp (encode_match_join_response response [])
      (record s { match_queue = q })

abbrev pub cancel_refused : ErrorCode → Bytes → MatchCancelResponse
cancel_refused code message = record empty_match_cancel_response {
  error_code = code;
  error_message = message;
}

-- `handleMatchCancel` after `matchmakingService_.cancel`.
unfoldable pub answer_cancel : MatchQueue × Bool → MatchQueue × MatchCancelResponse
answer_cancel (q, true) = (q, record empty_match_cancel_response { accepted = true })
answer_cancel (q, false) = (q, cancel_refused invalid_state (text "Not in matchmaking queue"))

-- `handleMatchCancel` once the request is decoded and the session looked up.
unfoldable pub cancel_session : Option PlayerSession → MatchQueue → MatchQueue × MatchCancelResponse
unfolding answer_cancel
cancel_session none q =
    (q, cancel_refused not_authenticated (text "Login is required before cancelling matchmaking"))
cancel_session (some session) q =
    if not (session.room_id == 0)
    then (q, cancel_refused invalid_state (text "Already in a room"))
    else answer_cancel (cancel session.user_id q)

-- The response of `handleMatchCancel`, and the queue after it.
unfoldable pub match_cancel :
    ℕ → Option MatchCancelRequest → SessionService → MatchQueue → MatchQueue × MatchCancelResponse
unfolding cancel_session
match_cancel conn_id none sessions q =
    (q, cancel_refused malformed_payload (text "Malformed match cancel payload"))
match_cancel conn_id (some request) sessions q =
    cancel_session (find_by_connection conn_id sessions) q

unfoldable pub handle_match_cancel : ℕ → Reader → GameServer → GameServer
handle_match_cancel conn_id reader s =
    let (q, response) =
      match_cancel conn_id (result (decode_match_cancel_request reader)) s.sessions s.match_queue in
    send_encoded conn_id msg_match_cancel_rsp (encode_match_cancel_response response [])
      (record s { match_queue = q })

-- What a player is told of the opponent.
abbrev pub match_found : ℕ → PlayerSession → MatchFoundNotification
match_found room_id opponent = record {
  room_id = room_id;
  opponent_user_id = opponent.user_id;
  opponent_user_name = opponent.user_name;
  opponent_elo = opponent.elo;
}

-- The notifications of one event, when the two sessions were looked up.
unfoldable pub notify_sessions :
    ℕ → ℕ → ℕ → Option PlayerSession → Option PlayerSession → GameServer → GameServer
notify_sessions room_id first_conn second_conn none second s = s
notify_sessions room_id first_conn second_conn (some first) none s = s
notify_sessions room_id first_conn second_conn (some first) (some second) s =
    send_encoded second_conn msg_match_found_ntf (encode_match_found (match_found room_id first) [])
      (send_encoded first_conn msg_match_found_ntf
        (encode_match_found (match_found room_id second) []) s)

unfoldable pub notify_event : MatchFoundEvent → GameServer → GameServer
unfolding notify_sessions
notify_event event s =
    let first_conn = find_connection_by_user_id event.pair.first.user_id s.sessions in
    let second_conn = find_connection_by_user_id event.pair.second.user_id s.sessions in
    notify_sessions event.room_id first_conn second_conn (find_by_connection first_conn s.sessions)
      (find_by_connection second_conn s.sessions) s

unfoldable pub notify_events : List MatchFoundEvent → GameServer → GameServer
notify_events [] s = s
notify_events (event ∷ events) s = notify_events events (notify_event event s)

-- The services of the server that the matchmaking refers to, and the server with them changed.
abbrev pub matchmaking : GameServer → Matchmaking
matchmaking s = record { match_queue = s.match_queue; rooms = s.rooms; sessions = s.sessions }

abbrev pub with_matchmaking : Matchmaking → GameServer → GameServer
with_matchmaking m s = record s {
  match_queue = m.match_queue;
  rooms = m.rooms;
  sessions = m.sessions;
}

-- `none` where the fuel of `tick` runs out.
unfoldable pub process_matchmaking_tick : ℕ → GameServer → Option GameServer
process_matchmaking_tick now s = elim (tick now (matchmaking s)) [
  | none ↦ none
  | some (m, events) ↦ some (notify_events events (with_matchmaking m s))
]
