-- ===== src/Tests/Timers.antt =====
-- The timers of server/muduo/TimerQueue.cc at concrete inputs.
use arena_game.Prelude.{ℕ, ◌<◌, refl, true, List, [], ◌∷◌, All, arith}
use arena_game.Prelude.OrderedSet.{contains}
use arena_game.Net.Timers.{
  Interval, TimerQueue, empty_timer_queue, max_sequence, TimerCall, adds, cancels, insert_entry,
  insert_timer, add_timer, add_timer_in_loop,
}
use arena_game.Net.Timers.Rounds.{IsValid}
use arena_game.Net.Timers.Invariant.{AreTimed}
use arena_game.Net.Timers.Arming.{
  TimerOperation, calls, fires, IsTimedOperation, run_timers, run_timers-IsValid,
}
use arena_game.Net.Timers.Repeating.{IsRound, handle_read-IsRound}

empty_timer_queue-IsValid : IsValid empty_timer_queue
unfolding contains
empty_timer_queue-IsValid = record {
  consistent = record { ascending = tt; distinct = tt; timed = tt; active = λ k. refl };
  armed = tt;
  quiet = refl;
}

abbrev half_second : Interval
half_second = record { positive = true; micros = 500000 }

-- A callback that adds a timer and cancels the first one.
abbrev callbacks : ℕ → List TimerCall
callbacks n = adds 1500110 208 2 1800000 half_second ∷ cancels (200, 1) ∷ []

callbacks-AreTimed : AreTimed callbacks
callbacks-AreTimed n = (omega arith, (tt, tt))

abbrev operations : List TimerOperation
operations = calls (adds 1000000 200 1 1500000 half_second) ∷ fires callbacks 1500100 1500120 ∷ []

operations-IsTimedOperation : All IsTimedOperation operations
operations-IsTimedOperation = (omega arith, ((omega arith, callbacks-AreTimed), tt))

run_timers-IsValid_example : IsValid (run_timers operations empty_timer_queue)
run_timers-IsValid_example =
    run_timers-IsValid operations empty_timer_queue operations-IsTimedOperation
      empty_timer_queue-IsValid

abbrev first_call : List TimerOperation
first_call = calls (adds 1000000 200 1 1500000 half_second) ∷ []

abbrev waiting : TimerQueue
waiting = run_timers first_call empty_timer_queue

waiting-IsValid : IsValid waiting
waiting-IsValid =
    run_timers-IsValid first_call empty_timer_queue (omega arith, tt) empty_timer_queue-IsValid

one_created : waiting.created < max_sequence
unfolding add_timer add_timer_in_loop insert_timer insert_entry
one_created = ground arith

-- A callback that leaves the queue alone.
abbrev nothing : ℕ → List TimerCall
nothing n = []

nothing-AreTimed : AreTimed nothing
nothing-AreTimed n = tt

handle_read-IsRound_example : IsRound nothing 1500100 1500120 waiting
handle_read-IsRound_example =
    handle_read-IsRound nothing 1500100 1500120 waiting one_created nothing-AreTimed
      waiting-IsValid.consistent
