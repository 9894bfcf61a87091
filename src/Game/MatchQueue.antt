-- ===== src/Game/MatchQueue.antt =====
-- server/game/MatchQueue.h and MatchQueue.cc: the players who wait for a match. A time point of the
-- steady clock is its count of nanoseconds.
pub mod Invariant
pub mod Matching
use arena_game.Prelude.{
  ℕ, ◌+◌, ◌-◌, ◌^◌, Bool, true, false, not, ◌&&◌, ◌||◌, Option, none, some, List, [], ◌∷◌, ◌==◌,
  nat_eq, ltb, leb, length, if◌then◌else◌,
}
use arena_game.Prelude.Map.{Map, lookup, emplace, erase}
use arena_game.Prelude.OrderedSet.{
  Key, key_eq, contains as set_contains, set_insert, set_erase, next_key, prev_key,
}
use arena_game.Prelude.Float
use arena_game.Prelude.Float.{Float}

pub record MatchTicket : Type 0 where
  pub user_id : ℕ
  pub elo : ℕ
  pub joined_at : ℕ

pub record MatchPair : Type 0 where
  pub first : MatchTicket
  pub second : MatchTicket

pub record MatchQueue : Type 0 where
  pub tickets_by_user_id : Map ℕ MatchTicket
  pub tickets_by_elo : List Key
  pub tickets_by_wait_time : List Key

abbrev pub empty_match_queue : MatchQueue
empty_match_queue = record {
  tickets_by_user_id = [];
  tickets_by_elo = [];
  tickets_by_wait_time = [];
}

unfoldable pub initial_elo_range : Float
unfolding Float.of_ℕ
initial_elo_range = Float.of_ℕ 100

unfoldable pub elo_range_per_second : Float
unfolding Float.of_ℕ
elo_range_per_second = Float.of_ℕ 20

unfoldable pub max_elo_range : Float
unfolding Float.of_ℕ
max_elo_range = Float.of_ℕ 500

unfoldable pub elo_difference : ℕ → ℕ → ℕ
elo_difference lhs rhs = if leb rhs lhs then lhs - rhs else rhs - lhs

-- `duration_cast` to seconds as a float.
unfoldable pub to_seconds : ℕ → Float
unfolding Float.of_ℕ Float.div
to_seconds nanoseconds = Float.div (Float.of_ℕ nanoseconds) (Float.of_ℕ (10 ^ 9))

-- `std::min`
abbrev pub float_min : Float → Float → Float
float_min a b = if ltb b a then b else a

unfoldable pub allowed_elo_range : MatchTicket → ℕ → Float
allowed_elo_range ticket now =
    if leb now ticket.joined_at
    then initial_elo_range
    else float_min
        (Float.add initial_elo_range
          (Float.mul (to_seconds (now - ticket.joined_at)) elo_range_per_second))
        max_elo_range

unfoldable pub contains : ℕ → MatchQueue → Bool
contains user_id q = elim (lookup user_id q.tickets_by_user_id) [ none ↦ false | some _ ↦ true ]

unfoldable pub size : MatchQueue → ℕ
size q = length q.tickets_by_user_id

abbrev pub elo_key : MatchTicket → Key
elo_key t = (t.elo, t.user_id)

abbrev pub wait_key : MatchTicket → Key
wait_key t = (t.joined_at, t.user_id)

unfoldable pub join : MatchTicket → MatchQueue → MatchQueue × Bool
unfolding contains
join ticket q = if contains ticket.user_id q then (q, false) else (
  record {
    tickets_by_elo = set_insert (elo_key ticket) q.tickets_by_elo;
    tickets_by_wait_time = set_insert (wait_key ticket) q.tickets_by_wait_time;
    tickets_by_user_id = emplace ticket.user_id ticket q.tickets_by_user_id;
  },
  true,
)

unfoldable pub remove_ticket : ℕ → MatchQueue → MatchQueue
remove_ticket user_id q = elim (lookup user_id q.tickets_by_user_id) [
  | none ↦ q
  | some ticket ↦ record {
    tickets_by_elo = set_erase (elo_key ticket) q.tickets_by_elo;
    tickets_by_wait_time = set_erase (wait_key ticket) q.tickets_by_wait_time;
    tickets_by_user_id = erase user_id q.tickets_by_user_id;
  }
]

unfoldable pub cancel : ℕ → MatchQueue → MatchQueue × Bool
unfolding contains
cancel user_id q = if not (contains user_id q) then (q, false) else (remove_ticket user_id q, true)

-- `bestSecond` and `bestDifference`
abbrev pub Best : Type 0
Best = Option MatchTicket × ℕ

-- `bestSecond == nullptr || candidate.userId_ < bestSecond->userId_`
abbrev pub comes_first : MatchTicket → Option MatchTicket → Bool
comes_first candidate none = true
comes_first candidate (some best) = ltb candidate.user_id best.user_id

-- `consider` once the candidate's ticket is found.
unfoldable pub consider_ticket : MatchTicket → Float → MatchTicket → Best → Best
consider_ticket first range candidate (best, best_difference) =
    let difference = elo_difference first.elo candidate.elo in
    if ltb range (Float.of_ℕ difference)
    then (best, best_difference)
    else (if ltb difference best_difference
          || (difference == best_difference && comes_first candidate best)
        then (some candidate, difference)
        else (best, best_difference))

-- The lambda `consider`; `none` is `end()`.
unfoldable pub consider : MatchQueue → MatchTicket → Float → Option Key → Best → Best
consider q first range none best = best
consider q first range (some key) best =
    if key_eq key (elo_key first) then best else elim (lookup (key.1) q.tickets_by_user_id) [
      | none ↦ best
      | some candidate ↦ consider_ticket first range candidate best
    ]

-- The neighbours of `first` in the order of the ratings, the one before and then the one after.
unfoldable pub best_second : MatchQueue → ℕ → MatchTicket → Option MatchTicket
best_second q now first =
    let range = allowed_elo_range first now in
    let before = prev_key (elo_key first) none q.tickets_by_elo in
    let after = next_key (elo_key first) q.tickets_by_elo in
    (consider q first range after (consider q first range before (none, 2 ^ 32 - 1))).0

-- The body of the loop of `tryMatch`; `none` is `continue`.
unfoldable pub match_at : MatchQueue → ℕ → ℕ → Option MatchPair
match_at q now user_id = elim (lookup user_id q.tickets_by_user_id) [
  | none ↦ none
  | some first ↦
      if not (set_contains (elo_key first) q.tickets_by_elo)
      then none
      else elim (best_second q now first) [
        | none ↦ none
        | some second ↦ some (record { first = first; second = second })
      ]
]

-- The loop of `tryMatch` over the rest of `ticketsByWaitTime_`.
unfoldable pub match_loop : MatchQueue → ℕ → List Key → Option MatchPair
match_loop q now [] = none
match_loop q now (wait_key ∷ rest) =
    let later = match_loop q now rest in
    elim (match_at q now wait_key.1) [ none ↦ later | some pair ↦ some pair ]

unfoldable pub try_match : ℕ → MatchQueue → MatchQueue × Option MatchPair
try_match now q = elim (match_loop q now q.tickets_by_wait_time) [
  | none ↦ (q, none)
  | some pair ↦ (remove_ticket pair.second.user_id (remove_ticket pair.first.user_id q), some pair)
]
