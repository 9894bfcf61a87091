-- ===== src/Net/Timers/Alarms.antt =====
-- What `timerfd_` of server/muduo/TimerQueue.cc is set to.
use arena_game.Prelude.{
  ℕ, ◌+◌, ◌≤◌, ◌<◌, ◌≡◌, Option, some, List, [], ◌∷◌, ltb, nat_eq, arith, ◌*◌, ◌-◌, ◌⊎◌,
  if◌then◌else◌,
}
use arena_game.Net.Timers.{Timer, Alarm, new_value, how_much_time_from_now}

-- An alarm goes off at a time or earlier, or 100 microseconds after it was set.
abbrev pub IsInTime : Alarm → ℕ → Type 0
IsInTime a time =
    (a.nanoseconds < 1000000000)
    × ((a.seconds * 1000000000 + a.nanoseconds ≡ 100000)
        ⊎ (a.set_at * 1000 + a.seconds * 1000000000 + a.nanoseconds ≤ time * 1000))

-- The alarm is set, in time for the first expiration, where there is one.
abbrev pub IsArmed : Option Alarm → List Timer → Type 0
IsArmed alarm [] = Unit {0}
IsArmed alarm (t ∷ l) = (a : Alarm) × (alarm ≡ some a) × IsInTime a t.expiration

-- The descriptor is set to the time that is left, to the microsecond, but to 100 at least.
pub how_much_time_from_now-waits :
    (time now : ℕ)
    → let (seconds, nanoseconds) = how_much_time_from_now time now in
      (nanoseconds < 1000000000)
      × (seconds * 1000000000 + nanoseconds
          ≡ (if ltb (time - now) 100 then 100 else time - now) * 1000)
unfolding how_much_time_from_now
how_much_time_from_now-waits time now = ground arith

pub new_value-IsInTime : (now time : ℕ) → IsInTime (new_value now time) time
new_value-IsInTime now time =
    let (small, waits) = how_much_time_from_now-waits time now in (small, ground (arith, waits))

pub later-IsInTime :
    (a : Alarm) (time later : ℕ) → time ≤ later → IsInTime a time → IsInTime a later
later-IsInTime a time later h (small, i) = (small, ground (arith, h, i))
