-- ===== src/Game/Matchmaking.antt =====
-- server/game/MatchmakingService.h and MatchmakingService.cc: from the queue to rooms.
pub mod Ticks
pub mod Placing
use arena_game.Prelude.{
  ℕ, zero, suc, ◌+◌, Bool, true, false, not, ◌||◌, Option, none, some, List, [], ◌∷◌, ◌++◌, ◌==◌,
  nat_eq, if◌then◌else◌,
}
use arena_game.Game.Room.{RoomService, create}
use arena_game.Game.Session.{
  PlayerSession, SessionService, find_by_connection, find_connection_by_user_id, mark_in_room,
}
use arena_game.Game.MatchQueue.{
  MatchTicket, MatchPair, MatchQueue, join as queue_join, cancel as queue_cancel, try_match, size,
}

pub record MatchFoundEvent : Type 0 where
  pub room_id : ℕ
  pub pair : MatchPair

-- The queue, and the two services that the matchmaking refers to.
pub record Matchmaking : Type 0 where
  pub match_queue : MatchQueue
  pub rooms : RoomService
  pub sessions : SessionService

unfoldable pub join : MatchTicket → MatchQueue → MatchQueue × Bool
join ticket q = queue_join ticket q

unfoldable pub cancel : ℕ → MatchQueue → MatchQueue × Bool
cancel user_id q = queue_cancel user_id q

-- The session of a user, through the user's connection.
abbrev pub session_of : ℕ → SessionService → Option PlayerSession
session_of user_id s = find_by_connection (find_connection_by_user_id user_id s) s

-- There is a session, and it is in no room.
abbrev pub is_free : Option PlayerSession → Bool
is_free none = false
is_free (some session) = session.room_id == 0

-- `tick` after `roomService_.create`: room number 0 is a refusal.
unfoldable pub enter_room :
    MatchPair → MatchQueue → SessionService → RoomService × ℕ → Matchmaking × List MatchFoundEvent
enter_room pair q sessions (rooms, room_id) =
    if room_id == 0 then (record { match_queue = q; rooms = rooms; sessions = sessions }, []) else (
      record {
        match_queue = q;
        rooms = rooms;
        sessions =
            mark_in_room pair.second.user_id room_id
              (mark_in_room pair.first.user_id room_id sessions);
      },
      record { room_id = room_id; pair = pair } ∷ [],
    )

-- The body of the loop of `tick` for one pair: the state and the events that it adds.
unfoldable pub place_pair : MatchPair → Matchmaking → Matchmaking × List MatchFoundEvent
unfolding enter_room
place_pair pair m =
    if not (is_free (session_of pair.first.user_id m.sessions))
      || not (is_free (session_of pair.second.user_id m.sessions))
    then (m, [])
    else enter_room pair m.match_queue m.sessions
        (create pair.first.user_id pair.second.user_id m.rooms)

-- The loop `while(true)` of `tick` with fuel; `none` means that the fuel ran out.
unfoldable pub tick_loop :
    ℕ → ℕ → Matchmaking → List MatchFoundEvent → Option (Matchmaking × List MatchFoundEvent)
tick_loop zero now m events = none
tick_loop (suc fuel) now m events =
    let (q, matched) = try_match now m.match_queue in
    elim matched [
      | none ↦ some (record m { match_queue = q }, events)
      | some pair ↦
          (let (m', found) = place_pair pair (record m { match_queue = q }) in
            tick_loop fuel now m' (events ++ found))
    ]

-- Each round but the last takes a ticket out of the queue at least.
unfoldable pub tick : ℕ → Matchmaking → Option (Matchmaking × List MatchFoundEvent)
tick now m = tick_loop (size m.match_queue + 1) now m []
