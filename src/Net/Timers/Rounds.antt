-- ===== src/Net/Timers/Rounds.antt =====
-- `handleRead` of server/muduo/TimerQueue.cc and the invariant of the queue.
use arena_game.Prelude.{
  ℕ, ◌<◌, ◌≡◌, refl, sym, subst, true, false, not, ◌&&◌, none, some, List, [], ◌∷◌, All, ltb,
  nat_eq, arith, if_cases,
}
use arena_game.Prelude.OrderedSet.{contains}
use arena_game.Net.Timers.{
  Timer, TimerQueue, new_value, repeat, restart, id_of, insert_timer, arm_first, TimerCall,
  get_expired, restart_expired, reset, run_expired, handle_read,
}
use arena_game.Net.Timers.Alarms.{IsArmed, new_value-IsInTime}
use arena_game.Net.Timers.Invariant.{
  IsTimed, IsConsistent, AreTimed, arm_if-IsConsistent, run_expired-IsConsistent,
  restart_expired-IsConsistent, get_expired-IsTaken,
}

-- Between its operations a queue is consistent and armed, and calls no expired timers.
pub record IsValid (q : TimerQueue) : Type 0 where
  pub consistent : IsConsistent q
  pub armed : IsArmed q.alarm q.timers
  pub quiet : q.calling_expired_timers ≡ false

arm_first-IsValid :
    (clock : ℕ) (l : List Timer) (q : TimerQueue)
    → q.timers ≡ l
    → q.calling_expired_timers ≡ false
    → IsConsistent q
    → IsValid (arm_first clock l q)
arm_first-IsValid clock [] q e f c = record {
  consistent = c;
  armed = subst (IsArmed q.alarm) (sym e) tt;
  quiet = f;
}
arm_first-IsValid clock (t ∷ l) q e f c =
    let timed : All (IsTimed q.created) (t ∷ l) = subst (All (IsTimed q.created)) e c.timed in
    if_cases IsValid (ltb 0 t.expiration) _ q
      (λ g. record {
        consistent = arm_if-IsConsistent true clock t.expiration q c;
        armed =
            subst (IsArmed (some (new_value clock t.expiration))) (sym e)
              (new_value clock t.expiration, refl, new_value-IsInTime clock t.expiration);
        quiet = f;
      })
      (λ g. absurd (ground (arith, g, timed.0)))

restart_expired-calling :
    (l : List Timer) (now : ℕ) (q : TimerQueue)
    → (restart_expired l now q).calling_expired_timers ≡ q.calling_expired_timers
unfolding restart_expired insert_timer
restart_expired-calling [] now q = refl
restart_expired-calling (t ∷ l) now q =
    if_cases (λ (d : TimerQueue). d.calling_expired_timers ≡ q.calling_expired_timers)
      (repeat t && not (contains (id_of t) q.canceling_timers)) _ _
      (λ e. restart_expired-calling l now (insert_timer (restart now t) q).0)
      (λ e. restart_expired-calling l now q)

-- The queue before its expired timers run.
abbrev pub before_calls : ℕ → TimerQueue → TimerQueue
before_calls now q = record (get_expired now (record q { alarm = none })).1 {
  calling_expired_timers = true;
  canceling_timers = [];
}

pub handle_read-IsValid :
    (callbacks : ℕ → List TimerCall) (now clock : ℕ) (q : TimerQueue)
    → 0 < now
    → AreTimed callbacks
    → IsValid q
    → IsValid (handle_read callbacks now clock q)
unfolding handle_read reset
handle_read-IsValid callbacks now clock q p h v =
    let c = v.consistent in
    let unarmed : IsConsistent (record q { alarm = none }) = record {
      ascending = c.ascending;
      distinct = c.distinct;
      timed = c.timed;
      active = c.active;
    } in
    let taken = get_expired-IsTaken now (record q { alarm = none }) unarmed in
    let r = taken.rest_consistent in
    let expired : List Timer = (get_expired now (record q { alarm = none })).0 in
    let start : IsConsistent (before_calls now q) = record {
      ascending = r.ascending;
      distinct = r.distinct;
      timed = r.timed;
      active = r.active;
    } in
    let (d, apart) =
      run_expired-IsConsistent callbacks expired (before_calls now q) expired h start
        taken.rest_apart in
    let ran : TimerQueue = record (run_expired callbacks expired (before_calls now q)) {
      calling_expired_timers = false;
    } in
    let ran_consistent : IsConsistent ran = record {
      ascending = d.ascending;
      distinct = d.distinct;
      timed = d.timed;
      active = d.active;
    } in
    let done =
      restart_expired-IsConsistent expired now ran p taken.expired_distinct ran_consistent apart in
    arm_first-IsValid clock (restart_expired expired now ran).timers
      (restart_expired expired now ran) refl (restart_expired-calling expired now ran) done
