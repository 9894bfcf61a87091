-- ===== src/Net/Timers.antt =====
-- server/muduo/TimerQueue.h, TimerQueue.cc, Timer.h, Timer.cc, TimerId.h and Timestamp.h: the timers
-- of an event loop. A time is its microseconds.
pub mod Entries
pub mod Invariant
pub mod Alarms
pub mod Rounds
pub mod Arming
pub mod Repeating
use arena_game.Prelude.{
  ℕ, zero, suc, ◌+◌, ◌-◌, ◌*◌, ◌/◌, ◌%◌, ◌^◌, Bool, true, false, not, ◌&&◌, ◌||◌, Option, none,
  some, List, [], ◌∷◌, ◌++◌, ltb, if◌then◌else◌, ◌==◌, nat_eq,
}
use arena_game.Prelude.OrderedSet.{Key, key_eq, key_lt, contains, set_insert, set_erase}

-- `interval_`, by what is read of it: whether it is positive, and the microseconds that `addTime`
-- makes of it.
pub record Interval : Type 0 where
  pub positive : Bool
  pub micros : ℕ

-- A timer, with its address in memory. Its callback is known by a number.
pub record Timer : Type 0 where
  pub address : ℕ
  pub callback : ℕ
  pub expiration : ℕ
  pub interval : Interval
  pub sequence : ℕ

abbrev pub repeat : Timer → Bool
repeat t = t.interval.positive

-- `Timestamp::addTime`
abbrev pub add_time : ℕ → Interval → ℕ
add_time time interval = time + interval.micros

abbrev pub restart : ℕ → Timer → Timer
restart now t = record t { expiration = if repeat t then add_time now t.interval else 0 }

-- `ActiveTimer` and `TimerId`
abbrev pub id_of : Timer → Key
id_of t = (t.address, t.sequence)

-- What `Entry::operator<` compares.
abbrev pub key_of : Timer → Key
key_of t = (t.expiration, t.sequence)

-- `howMuchTimeFromNow`: seconds and nanoseconds, at least 100 microseconds.
unfoldable pub how_much_time_from_now : ℕ → ℕ → ℕ × ℕ
how_much_time_from_now time now =
    let difference = time - now in
    let microseconds = if ltb difference 100 then 100 else difference in
    (microseconds / 1000000, (microseconds % 1000000) * 1000)

-- `newValue`, with the time of the clock when `timerfd_settime` is called.
pub record Alarm : Type 0 where
  pub set_at : ℕ
  pub seconds : ℕ
  pub nanoseconds : ℕ

abbrev pub new_value : ℕ → ℕ → Alarm
new_value now expiration = record {
  set_at = now;
  seconds = (how_much_time_from_now expiration now).0;
  nanoseconds = (how_much_time_from_now expiration now).1;
}

-- The members; `created` is `s_numCreated_`, and `alarm` what `timerfd_` is set to. `called` are the
-- callbacks that have run, by their numbers.
pub record TimerQueue : Type 0 where
  pub timers : List Timer
  pub active_timers : List Key
  pub calling_expired_timers : Bool
  pub canceling_timers : List Key
  pub created : ℕ
  pub alarm : Option Alarm
  pub called : List ℕ

-- The constructor.
abbrev pub empty_timer_queue : TimerQueue
empty_timer_queue = record {
  timers = [];
  active_timers = [];
  calling_expired_timers = false;
  canceling_timers = [];
  created = 0;
  alarm = none;
  called = [];
}

-- `timers_.insert`
unfoldable pub insert_entry : Timer → List Timer → List Timer
insert_entry t [] = t ∷ []
insert_entry t (u ∷ l) =
    let rest = insert_entry t l in
    if key_eq (key_of u) (key_of t)
    then u ∷ l
    else (if key_lt (key_of t) (key_of u) then t ∷ u ∷ l else u ∷ rest)

-- `timers_.erase` of the entry of a timer: it is the one with that sequence number.
unfoldable pub erase_entry : Key → List Timer → List Timer
erase_entry id [] = []
erase_entry id (u ∷ l) =
    let rest = erase_entry id l in if key_eq (id_of u) id then rest else u ∷ rest

abbrev pub is_earliest : ℕ → List Timer → Bool
is_earliest time [] = true
is_earliest time (u ∷ l) = ltb time u.expiration

-- `insert`: the queue, and `earliestChanged`.
unfoldable pub insert_timer : Timer → TimerQueue → TimerQueue × Bool
unfolding insert_entry set_insert
insert_timer t q = (
  record q {
    timers = insert_entry t q.timers;
    active_timers = set_insert (id_of t) q.active_timers;
  },
  is_earliest t.expiration q.timers,
)

-- `resetTimerfd`, which reads the clock.
abbrev pub reset_timerfd : ℕ → ℕ → TimerQueue → TimerQueue
reset_timerfd now expiration q = record q { alarm = some (new_value now expiration) }

abbrev arm_if : Bool → ℕ → ℕ → TimerQueue → TimerQueue
arm_if b now time q = if b then reset_timerfd now time q else q

unfoldable pub add_timer_in_loop : ℕ → Timer → TimerQueue → TimerQueue
unfolding insert_timer
add_timer_in_loop now t q =
    let (inserted, earliest_changed) = insert_timer t q in
    arm_if earliest_changed now t.expiration inserted

-- The timer that `new Timer` makes at an address.
abbrev pub new_timer : ℕ → ℕ → ℕ → Interval → TimerQueue → Timer
new_timer address callback time interval q = record {
  address = address;
  callback = callback;
  expiration = time;
  interval = interval;
  sequence = q.created + 1;
}

-- `addTimer` in the thread of the loop, at a time `now` of the clock.
unfoldable pub add_timer : ℕ → ℕ → ℕ → ℕ → Interval → TimerQueue → TimerQueue × Key
unfolding add_timer_in_loop
add_timer now address callback time interval q =
    let t = new_timer address callback time interval q in
    (add_timer_in_loop now t (record q { created = q.created + 1 }), id_of t)

unfoldable pub cancel_in_loop : Key → TimerQueue → TimerQueue
unfolding contains erase_entry set_erase set_insert
cancel_in_loop id q =
    if contains id q.active_timers
    then record q { timers = erase_entry id q.timers; active_timers = set_erase id q.active_timers }
    else (if q.calling_expired_timers
        then record q { canceling_timers = set_insert id q.canceling_timers }
        else q)

-- What a callback does to the queue.
pub data TimerCall : Type 0 where
  adds : ℕ → ℕ → ℕ → ℕ → Interval → TimerCall
  cancels : Key → TimerCall

abbrev pub make_call : TimerCall → TimerQueue → TimerQueue
make_call (adds now address callback time interval) q =
    (add_timer now address callback time interval q).0
make_call (cancels id) q = cancel_in_loop id q

abbrev pub make_calls : List TimerCall → TimerQueue → TimerQueue
make_calls [] q = q
make_calls (call ∷ calls) q = make_calls calls (make_call call q)

-- `lower_bound`: the entries below a key, and the others.
unfoldable pub split_below : Key → List Timer → List Timer × List Timer
split_below bound [] = ([], [])
split_below bound (t ∷ l) =
    let (below, above) = split_below bound l in
    if key_lt (key_of t) bound then (t ∷ below, above) else ([], t ∷ l)

-- `INT64_MAX`
abbrev pub max_sequence : ℕ
max_sequence = 2 ^ 63 - 1

abbrev pub erase_active : List Timer → List Key → List Key
erase_active [] active = active
erase_active (t ∷ l) active = erase_active l (set_erase (id_of t) active)

unfoldable pub get_expired : ℕ → TimerQueue → List Timer × TimerQueue
unfolding split_below set_erase
get_expired now q =
    let (expired, later) = split_below (now, max_sequence) q.timers in
    (expired, record q { timers = later; active_timers = erase_active expired q.active_timers })

-- The loop of `reset`.
unfoldable pub restart_expired : List Timer → ℕ → TimerQueue → TimerQueue
unfolding contains insert_timer
restart_expired [] now q = q
restart_expired (t ∷ l) now q =
    if repeat t && not (contains (id_of t) q.canceling_timers)
    then restart_expired l now (insert_timer (restart now t) q).0
    else restart_expired l now q

-- `valid` of the first expiration is that it is not 0.
abbrev pub arm_first : ℕ → List Timer → TimerQueue → TimerQueue
arm_first clock [] q = q
arm_first clock (t ∷ l) q = arm_if (ltb 0 t.expiration) clock t.expiration q

-- `now` is the time that the descriptor was read at, `clock` the one of `resetTimerfd`.
unfoldable pub reset : List Timer → ℕ → ℕ → TimerQueue → TimerQueue
unfolding restart_expired
reset expired now clock q =
    let restarted = restart_expired expired now q in arm_first clock restarted.timers restarted

-- The callbacks of the expired timers, by their numbers.
abbrev pub run_expired : (ℕ → List TimerCall) → List Timer → TimerQueue → TimerQueue
run_expired callbacks [] q = q
run_expired callbacks (t ∷ l) q =
    run_expired callbacks l
      (make_calls (callbacks t.callback) (record q { called = q.called ++ (t.callback ∷ []) }))

-- The timer file descriptor has fired and is read; the expired timers run and are reset.
unfoldable pub handle_read : (ℕ → List TimerCall) → ℕ → ℕ → TimerQueue → TimerQueue
unfolding get_expired reset
handle_read callbacks now clock q =
    let (expired, rest) = get_expired now (record q { alarm = none }) in
    let ran =
      run_expired callbacks expired
        (record rest { calling_expired_timers = true; canceling_timers = [] }) in
    reset expired now clock (record ran { calling_expired_timers = false })
