-- ===== src/Tests/Matching.antt =====
-- The queue and a tick at concrete inputs.
use arena_game.Prelude.{
  ℕ, ◌≡◌, refl, none, some, List, arith, if◌then◌else◌, ◌==◌, ◌||◌, nat_eq, All,
}
use arena_game.Prelude.Map.{lookup, emplace}
use arena_game.Prelude.OrderedSet.{set_insert, prev_key, next_key, contains as set_contains}
use arena_game.Prelude.Float
use arena_game.Game.Room.{empty_room_service}
use arena_game.Game.MatchQueue.{
  MatchTicket, MatchPair, try_match, match_loop, match_at, best_second, consider, consider_ticket,
  allowed_elo_range, initial_elo_range, elo_difference, contains, size, join, cancel, remove_ticket,
}
use arena_game.Game.MatchQueue.Invariant as Queue
use arena_game.Game.MatchQueue.Invariant.{queue_operations-IsValid}
use arena_game.Game.MatchQueue.Matching.{IsMatch, try_match-IsMatch}
use arena_game.Game.Matchmaking.{Matchmaking, MatchFoundEvent, tick}
use arena_game.Game.Matchmaking.Ticks.{tick_total}
use arena_game.Game.Matchmaking.Placing.{IsPlaced, tick-IsPlaced}
use arena_game.Game.Matchmaking.Placing as Placing
use arena_game.Tests.Data.{
  logins, logins-IsValid, alice_ticket, bob_ticket, queue, queue-IsValid,
  empty_room_service-IsValid,
}

queue_operations-IsValid_example :
    ((t : MatchTicket) → Queue.IsValid (join t queue).0)
    × ((u : ℕ) → Queue.IsValid (cancel u queue).0)
    × ((now : ℕ) → Queue.IsValid (try_match now queue).0)
    × ((u : ℕ) → Queue.IsValid (remove_ticket u queue))
queue_operations-IsValid_example = queue_operations-IsValid queue queue-IsValid

abbrev matched : MatchPair
matched = record { first = alice_ticket; second = bob_ticket }

pairs : (try_match 5 queue).1 ≡ some matched
unfolding try_match match_loop match_at best_second consider consider_ticket allowed_elo_range
    initial_elo_range elo_difference Float.of_ℕ prev_key next_key set_contains set_insert join
    lookup emplace contains
pairs = refl

try_match-IsMatch_example :
    IsMatch queue 5 matched
    × Queue.IsValid (try_match 5 queue).0
    × ((u : ℕ)
        → lookup u (try_match 5 queue).0.tickets_by_user_id
          ≡ (if 1 == u || 2 == u then none else lookup u queue.tickets_by_user_id))
try_match-IsMatch_example = try_match-IsMatch queue 5 queue-IsValid matched pairs

abbrev waiting : Matchmaking
waiting = record { match_queue = queue; rooms = empty_room_service; sessions = logins }

waiting_ticks : (r : Matchmaking × List MatchFoundEvent) × (tick 5 waiting ≡ some r)
waiting_ticks = tick_total 5 waiting queue-IsValid

waiting-IsValid : Placing.IsValid waiting
waiting-IsValid = record {
  queue_valid = queue-IsValid;
  rooms_valid = empty_room_service-IsValid;
  sessions_valid = logins-IsValid;
}

two_wait : size queue ≡ 2
unfolding size join emplace set_insert lookup contains
two_wait = refl

tick-IsPlaced_example :
    let r : Matchmaking × List MatchFoundEvent = waiting_ticks.0 in
    Placing.IsValid r.0 × All (IsPlaced r.0.rooms) r.1
tick-IsPlaced_example =
    tick-IsPlaced 5 waiting waiting_ticks.0 waiting-IsValid (omega (arith, two_wait))
      waiting_ticks.1
