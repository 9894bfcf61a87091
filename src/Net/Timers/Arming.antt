-- ===== src/Net/Timers/Arming.antt =====
-- The timer file descriptor of server/muduo/TimerQueue.cc is set in time for the first timer.
use arena_game.Prelude.{
  ℕ, ◌<◌, ◌≡◌, refl, false, ◌&&◌, Option, some, List, [], ◌∷◌, All, ltb, nat_beq, if◌then◌else◌,
  nat_eq, arith, inl, inr, Bool-cases, if_cases,
}
use arena_game.Prelude.OrderedSet.{Key, key_eq, contains}
use arena_game.Net.Timers.{
  Timer, TimerQueue, Alarm, new_value, id_of, key_of, insert_entry, erase_entry, is_earliest,
  insert_timer, add_timer_in_loop, new_timer, add_timer, cancel_in_loop, TimerCall, adds, cancels,
  make_call, handle_read,
}
use arena_game.Net.Timers.Entries.{IsAscending, Above}
use arena_game.Net.Timers.Alarms.{IsArmed, new_value-IsInTime, later-IsInTime}
use arena_game.Net.Timers.Rounds.{IsValid, handle_read-IsValid}
use arena_game.Net.Timers.Invariant.{IsTimedCall, AreTimed, make_call-IsConsistent}

insert_entry-IsArmed :
    (now : ℕ) (t : Timer) (alarm : Option Alarm) (l : List Timer)
    → IsArmed alarm l
    → IsArmed
        (if is_earliest t.expiration l then some (new_value now t.expiration) else alarm)
        (insert_entry t l)
unfolding insert_entry
insert_entry-IsArmed now t alarm [] a =
    (new_value now t.expiration, refl, new_value-IsInTime now t.expiration)
insert_entry-IsArmed now t alarm (u ∷ l) (a, e, h) =
    elim (Bool-cases (ltb t.expiration u.expiration)) [
      | inl f ↦
          let d : key_eq (key_of u) (key_of t) ≡ false = ground (arith, f) in
          rw (f, d) (new_value now t.expiration, refl, new_value-IsInTime now t.expiration)
      | inr f ↦ elim (Bool-cases (key_eq (key_of u) (key_of t))) [
        | inl d ↦ rw (f, d) (a, e, h)
        | inr d ↦
            elim (Bool-cases (nat_beq t.expiration u.expiration && ltb t.sequence u.sequence)) [
              | inl g ↦
                  rw (f, d, g)
                    (a, e, later-IsInTime a u.expiration t.expiration (ground (arith, g)) h)
              | inr g ↦ rw (f, d, g) (a, e, h)
            ]
      ]
    ]

-- An entry that is gone leaves later ones.
tail-IsArmed :
    (t : Timer) (alarm : Option Alarm) (l : List Timer)
    → Above (key_of t) l
    → IsArmed alarm (t ∷ l)
    → IsArmed alarm l
tail-IsArmed t alarm [] o a = tt
tail-IsArmed t alarm (u ∷ l) (o, os) (a, e, h) =
    (a, e, later-IsInTime a t.expiration u.expiration (ground (arith, o)) h)

erase_entry-IsArmed :
    (i : Key) (alarm : Option Alarm) (l : List Timer)
    → IsAscending l
    → IsArmed alarm l
    → IsArmed alarm (erase_entry i l)
unfolding erase_entry
erase_entry-IsArmed i alarm [] o a = tt
erase_entry-IsArmed i alarm (t ∷ l) (b, o) a = elim (Bool-cases (key_eq (id_of t) i)) [
  | inl e ↦ rw e (erase_entry-IsArmed i alarm l o (tail-IsArmed t alarm l b a))
  | inr e ↦ rw e a
]

make_call-IsValid :
    (call : TimerCall) (q : TimerQueue) → IsTimedCall call → IsValid q → IsValid (make_call call q)
unfolding add_timer add_timer_in_loop insert_timer cancel_in_loop
make_call-IsValid (adds now address callback time interval) q h v =
    let t = new_timer address callback time interval q in
    let c = make_call-IsConsistent (adds now address callback time interval) q h v.consistent in
    let a = insert_entry-IsArmed now t q.alarm q.timers v.armed in
    let (armed, quiet) =
      if_cases (λ (d : TimerQueue). IsArmed d.alarm d.timers × (d.calling_expired_timers ≡ false))
        (is_earliest time q.timers) _ _ (λ e. (rw e at a, v.quiet)) (λ e. (rw e at a, v.quiet)) in
    record { consistent = c; armed = armed; quiet = quiet }
make_call-IsValid (cancels id) q h v =
    let c = make_call-IsConsistent (cancels id) q h v.consistent in
    let (armed, quiet) =
      if_cases (λ (d : TimerQueue). IsArmed d.alarm d.timers × (d.calling_expired_timers ≡ false))
        (contains id q.active_timers) _ _
        (λ e. (erase_entry-IsArmed id q.alarm q.timers v.consistent.ascending v.armed, v.quiet))
        (λ e.
          if_cases
            (λ (d : TimerQueue). IsArmed d.alarm d.timers × (d.calling_expired_timers ≡ false))
            q.calling_expired_timers _ q (λ f. (v.armed, v.quiet)) (λ f. (v.armed, v.quiet))) in
    record { consistent = c; armed = armed; quiet = quiet }

-- What happens to a queue: a call, or its descriptor fires at a time with these callbacks, and is
-- set anew at a later time.
pub data TimerOperation : Type 0 where
  calls : TimerCall → TimerOperation
  fires : (ℕ → List TimerCall) → ℕ → ℕ → TimerOperation

abbrev pub IsTimedOperation : TimerOperation → Type 0
IsTimedOperation (calls call) = IsTimedCall call
IsTimedOperation (fires callbacks now clock) = (0 < now) × AreTimed callbacks

abbrev pub run_timers : List TimerOperation → TimerQueue → TimerQueue
run_timers [] q = q
run_timers (calls call ∷ ops) q = run_timers ops (make_call call q)
run_timers (fires callbacks now clock ∷ ops) q = run_timers ops (handle_read callbacks now clock q)

-- Where both sets of a queue hold the same timers, the one in the order of the times, each number
-- once and given out, and the descriptor is set for the first time or earlier, or for 100
-- microseconds from when it was set, all of this holds after any run of additions, cancellations
-- and expiries, whatever the clock says and the callbacks add and cancel, as long as no time is 0.
pub run_timers-IsValid :
    (ops : List TimerOperation) (q : TimerQueue)
    → All IsTimedOperation ops
    → IsValid q
    → IsValid (run_timers ops q)
run_timers-IsValid [] q h v = v
run_timers-IsValid (calls call ∷ ops) q (h, hs) v =
    run_timers-IsValid ops (make_call call q) hs (make_call-IsValid call q h v)
run_timers-IsValid (fires callbacks now clock ∷ ops) q ((p, h), hs) v =
    run_timers-IsValid ops (handle_read callbacks now clock q) hs
      (handle_read-IsValid callbacks now clock q p h v)
