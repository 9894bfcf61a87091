-- ===== src/Game/Matchmaking/Ticks.antt =====
-- One tick of server/game/MatchmakingService.cc: it ends, and what it leaves.
use arena_game.Prelude.{
  ℕ, zero, suc, ◌+◌, ◌<◌, ◌≡◌, some, arith, inl, inr, Option-cases, nat_eq, ap, List, [], ◌++◌,
}
use arena_game.Game.MatchQueue.{MatchQueue, MatchPair, try_match, size}
use arena_game.Game.MatchQueue.Invariant as Queue
use arena_game.Game.MatchQueue.Matching.{try_match-IsMatch, size-try_match}
use arena_game.Game.Matchmaking.{Matchmaking, MatchFoundEvent, place_pair, tick_loop, tick}

pub place_pair-queue :
    (pair : MatchPair) (m : Matchmaking) → (place_pair pair m).0.match_queue ≡ m.match_queue
unfolding place_pair
place_pair-queue pair m = ground arith

tick_loop_total :
    (fuel now : ℕ) (m : Matchmaking) (events : List MatchFoundEvent)
    → Queue.IsValid m.match_queue
    → size m.match_queue < fuel
    → (r : Matchmaking × List MatchFoundEvent) × (tick_loop fuel now m events ≡ some r)
unfolding tick_loop
tick_loop_total zero now m events v h = absurd (omega arith)
tick_loop_total (suc fuel) now m events v h = elim (Option-cases (try_match now m.match_queue).1) [
  | inl e ↦
      ((record m { match_queue = (try_match now m.match_queue).0 }, events), rw (e, tick_loop))
  | inr (pair, e) ↦
      let q : MatchQueue = (try_match now m.match_queue).0 in
      let m' : Matchmaking = record m { match_queue = q } in
      let same = place_pair-queue pair m' in
      rw (e, tick_loop)
        (tick_loop_total fuel now (place_pair pair m').0 (events ++ (place_pair pair m').1)
          (rw same (try_match-IsMatch m.match_queue now v pair e).1)
          (omega (arith, ap size same, size-try_match m.match_queue now pair v e)))
]

-- Where the three indexes of the queue hold the same tickets, a tick ends with a result.
pub tick_total :
    (now : ℕ) (m : Matchmaking)
    → Queue.IsValid m.match_queue
    → (r : Matchmaking × List MatchFoundEvent) × (tick now m ≡ some r)
unfolding tick
tick_total now m v = tick_loop_total (size m.match_queue + 1) now m [] v (omega arith)
