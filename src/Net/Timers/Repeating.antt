-- ===== src/Net/Timers/Repeating.antt =====
-- Which timers of server/muduo/TimerQueue.cc run when, and which come again.
use arena_game.Prelude.{
  ℕ, ◌≤◌, ◌<◌, ◌≡◌, refl, ap, sym, append-nil, append_assoc, subst, ◌∙◌, true, false, not, ◌&&◌,
  ◌⊎◌, none, List, [], ◌∷◌, ◌++◌, All, ltb, nat_eq, arith, inl, inr, if_cases,
}
use arena_game.Prelude.OrderedSet.{Key, key_eq, key_lt, contains, contains-set_insert}
use arena_game.Net.Timers.{
  Timer, TimerQueue, repeat, restart, id_of, key_of, insert_entry, insert_timer, arm_first,
  add_timer_in_loop, add_timer, cancel_in_loop, TimerCall, adds, cancels, make_calls, split_below,
  max_sequence, get_expired, restart_expired, reset, run_expired, handle_read,
}
use arena_game.Net.Timers.Entries.{has_sequence, split_below-IsSplit, IsDistinct}
use arena_game.Net.Timers.Invariant.{
  IsConsistent, IsTimed, IsApart, get_expired-IsTaken, All-map, AreTimed, restart-IsApart,
  run_expired-IsConsistent,
}
use arena_game.Net.Timers.Rounds.{before_calls}

-- A timer is in the list.
abbrev pub IsIn : Timer → List Timer → Type 0
IsIn t [] = ⊥
IsIn t (u ∷ l) = (u ≡ t) ⊎ IsIn t l

insert_entry-IsIn :
    (t : Timer) (l : List Timer) → has_sequence t.sequence l ≡ false → IsIn t (insert_entry t l)
unfolding insert_entry
insert_entry-IsIn t [] h = inl refl
insert_entry-IsIn t (u ∷ l) h =
    if_cases (IsIn t) (key_eq (key_of u) (key_of t)) _ _ (λ e. absurd (ground (arith, h, e)))
      (λ e.
        if_cases (IsIn t) (key_lt (key_of t) (key_of u)) _ _ (λ f. inl refl)
          (λ f. inr (insert_entry-IsIn t l (ground (arith, h)))))

map_right : {A B C : Type 0} → (B → C) → A ⊎ B → A ⊎ C
map_right f (inl a) = inl a
map_right f (inr b) = inr (f b)

insert_entry-keeps : (t u : Timer) (l : List Timer) → IsIn t l → IsIn t (insert_entry u l)
unfolding insert_entry
insert_entry-keeps t u [] h = elim h [ ]
insert_entry-keeps t u (v ∷ l) h =
    if_cases (IsIn t) (key_eq (key_of v) (key_of u)) _ _ (λ e. h)
      (λ e.
        if_cases (IsIn t) (key_lt (key_of u) (key_of v)) _ _ (λ f. inr h)
          (λ f. map_right (insert_entry-keeps t u l) h))

restart_expired-keeps :
    (t : Timer) (l : List Timer) (now : ℕ) (q : TimerQueue)
    → IsIn t q.timers
    → IsIn t (restart_expired l now q).timers
unfolding restart_expired insert_timer
restart_expired-keeps t [] now q h = h
restart_expired-keeps t (u ∷ l) now q h =
    if_cases (λ (d : TimerQueue). IsIn t d.timers)
      (repeat u && not (contains (id_of u) q.canceling_timers)) _ _
      (λ e.
        restart_expired-keeps t l now (insert_timer (restart now u) q).0
          (insert_entry-keeps t (restart now u) q.timers h))
      (λ e. restart_expired-keeps t l now q h)

-- A repeating timer that is not to be cancelled stands in the queue again, from now on.
abbrev pub ComesAgain : ℕ → List Key → List Timer → Timer → Type 0
ComesAgain now canceling after t =
    repeat t ≡ true → contains (id_of t) canceling ≡ false → IsIn (restart now t) after

restart_expired-ComesAgain :
    (l : List Timer) (now : ℕ) (q : TimerQueue)
    → IsDistinct l
    → IsApart l q
    → All (ComesAgain now q.canceling_timers (restart_expired l now q).timers) l
unfolding restart_expired insert_timer
restart_expired-ComesAgain [] now q d a = tt
restart_expired-ComesAgain (t ∷ l) now q (new, d) ((b, s), a) =
    if_cases
      (λ (r : TimerQueue).
        ComesAgain now q.canceling_timers r.timers t
        × All (ComesAgain now q.canceling_timers r.timers) l)
      (repeat t && not (contains (id_of t) q.canceling_timers)) _ _
      (λ e. (
        λ r k.
            restart_expired-keeps (restart now t) l now (insert_timer (restart now t) q).0
              (insert_entry-IsIn (restart now t) q.timers b),
        restart_expired-ComesAgain l now (insert_timer (restart now t) q).0 d
            (restart-IsApart t now q l b new a),
      ))
      (λ e. (λ r k. absurd (ground (arith, e, r, k)), restart_expired-ComesAgain l now q d a))

-- Nobody cancels that timer.
abbrev pub NeverCancels : Key → List TimerCall → Type 0
NeverCancels id [] = Unit {0}
NeverCancels id (adds now address callback time interval ∷ calls) = NeverCancels id calls
NeverCancels id (cancels k ∷ calls) = (key_eq k id ≡ false) × NeverCancels id calls

make_calls-canceling :
    (id : Key) (calls : List TimerCall) (q : TimerQueue)
    → NeverCancels id calls
    → contains id q.canceling_timers ≡ false
    → contains id (make_calls calls q).canceling_timers ≡ false
unfolding add_timer add_timer_in_loop insert_timer cancel_in_loop
make_calls-canceling id [] q n h = h
make_calls-canceling id (adds now address callback time interval ∷ calls) q n h =
    make_calls-canceling id calls (add_timer now address callback time interval q).0 n (
      if_cases (λ (d : TimerQueue). contains id d.canceling_timers ≡ false) _ _ _ (λ e. h) (λ e. h))
make_calls-canceling id (cancels k ∷ calls) q (d, n) h =
    make_calls-canceling id calls (cancel_in_loop k q) n (
      if_cases (λ (r : TimerQueue). contains id r.canceling_timers ≡ false)
        (contains k q.active_timers) _ _ (λ e. h)
        (λ e.
          if_cases (λ (r : TimerQueue). contains id r.canceling_timers ≡ false)
            q.calling_expired_timers _ q
            (λ f. contains-set_insert k id q.canceling_timers ∙ ground (arith, d, h)) (λ f. h)))

run_expired-canceling :
    (id : Key) (callbacks : ℕ → List TimerCall) (ran : List Timer) (q : TimerQueue)
    → ((n : ℕ) → NeverCancels id (callbacks n))
    → contains id q.canceling_timers ≡ false
    → contains id (run_expired callbacks ran q).canceling_timers ≡ false
run_expired-canceling id callbacks [] q n h = h
run_expired-canceling id callbacks (t ∷ ran) q n h =
    run_expired-canceling id callbacks ran
      (make_calls (callbacks t.callback) (record q { called = q.called ++ (t.callback ∷ []) })) n
      (make_calls-canceling id (callbacks t.callback)
        (record q { called = q.called ++ (t.callback ∷ []) }) (n t.callback) h)

timers-arm_first :
    (clock : ℕ) (l : List Timer) (q : TimerQueue) → (arm_first clock l q).timers ≡ q.timers
timers-arm_first clock [] q = refl
timers-arm_first clock (t ∷ l) q =
    if_cases (λ (d : TimerQueue). d.timers ≡ q.timers) (ltb 0 t.expiration) _ q (λ e. refl)
      (λ e. refl)

-- The callbacks that run for these timers, in order.
abbrev pub callbacks_of : List Timer → List ℕ
callbacks_of [] = []
callbacks_of (t ∷ l) = t.callback ∷ callbacks_of l

make_calls-called :
    (calls : List TimerCall) (q : TimerQueue) → (make_calls calls q).called ≡ q.called
unfolding add_timer add_timer_in_loop insert_timer cancel_in_loop
make_calls-called [] q = refl
make_calls-called (adds now address callback time interval ∷ calls) q =
    make_calls-called calls (add_timer now address callback time interval q).0
    ∙ if_cases (λ (d : TimerQueue). d.called ≡ q.called) _ _ _ (λ e. refl) (λ e. refl)
make_calls-called (cancels k ∷ calls) q =
    make_calls-called calls (cancel_in_loop k q)
    ∙ if_cases (λ (d : TimerQueue). d.called ≡ q.called) (contains k q.active_timers) _ _
        (λ e. refl)
        (λ e.
          if_cases (λ (d : TimerQueue). d.called ≡ q.called) q.calling_expired_timers _ q
            (λ f. refl) (λ f. refl))

run_expired-called :
    (callbacks : ℕ → List TimerCall) (l : List Timer) (q : TimerQueue)
    → (run_expired callbacks l q).called ≡ q.called ++ callbacks_of l
run_expired-called callbacks [] q = sym (append-nil q.called)
run_expired-called callbacks (t ∷ l) q =
    let running : TimerQueue = record q { called = q.called ++ (t.callback ∷ []) } in
    run_expired-called callbacks l (make_calls (callbacks t.callback) running)
    ∙ ap (λ z. z ++ callbacks_of l) (make_calls-called (callbacks t.callback) running)
    ∙ append_assoc q.called (t.callback ∷ []) (callbacks_of l)

restart_expired-called :
    (l : List Timer) (now : ℕ) (q : TimerQueue) → (restart_expired l now q).called ≡ q.called
unfolding restart_expired insert_timer
restart_expired-called [] now q = refl
restart_expired-called (t ∷ l) now q =
    if_cases (λ (d : TimerQueue). d.called ≡ q.called)
      (repeat t && not (contains (id_of t) q.canceling_timers)) _ _
      (λ e. restart_expired-called l now (insert_timer (restart now t) q).0)
      (λ e. restart_expired-called l now q)

arm_first-called :
    (clock : ℕ) (l : List Timer) (q : TimerQueue) → (arm_first clock l q).called ≡ q.called
arm_first-called clock [] q = refl
arm_first-called clock (t ∷ l) q =
    if_cases (λ (d : TimerQueue). d.called ≡ q.called) (ltb 0 t.expiration) _ q (λ e. refl)
      (λ e. refl)

-- What `handleRead` does at a time: which timers run, which do not, and which come again.
pub record IsRound (callbacks : ℕ → List TimerCall) (now clock : ℕ) (q : TimerQueue) : Type 0 where
  pub expired : List Timer
  pub later : List Timer
  pub taken : (get_expired now (record q { alarm = none })).0 ≡ expired
  pub together : q.timers ≡ expired ++ later
  pub calls : (handle_read callbacks now clock q).called ≡ q.called ++ callbacks_of expired
  pub all_due : All (λ t. t.expiration ≤ now) expired
  pub none_due : All (λ t. now < t.expiration) later
  pub again :
      All
        (λ t.
          repeat t ≡ true
          → ((n : ℕ) → NeverCancels (id_of t) (callbacks n))
          → IsIn (restart now t) (handle_read callbacks now clock q).timers)
        expired

due : (now : ℕ) (t : Timer) → key_lt (key_of t) (now, max_sequence) ≡ true → t.expiration ≤ now
due now t h = ground (arith, h)

-- The queue after the callbacks have run.
abbrev after_calls : (ℕ → List TimerCall) → ℕ → TimerQueue → TimerQueue
after_calls callbacks now q =
    record (run_expired callbacks (get_expired now (record q { alarm = none })).0
      (before_calls now q)) { calling_expired_timers = false }

not_due :
    (now n : ℕ) (t : Timer)
    → n < max_sequence
    → IsTimed n t
    → key_lt (key_of t) (now, max_sequence) ≡ false
    → now < t.expiration
not_due now n t h (s, p) k = ground (arith, h, s, k)

All-zip :
    (P Q R : Timer → Type 0) (l : List Timer)
    → ((t : Timer) → P t → Q t → R t)
    → All P l
    → All Q l
    → All R l
All-zip P Q R [] f a b = tt
All-zip P Q R (t ∷ l) f (h, a) (g, b) = (f t h g, All-zip P Q R l f a b)

-- In a queue that is consistent, with fewer than 2 ^ 63 - 1 timers created and callbacks that add
-- no timer for the time 0, `handleRead` calls the callbacks of exactly the timers whose time has
-- come, once each in the order of the queue, and every repeating one among them that no callback
-- cancels stands in the queue again, for its interval from now.
pub handle_read-IsRound :
    (callbacks : ℕ → List TimerCall) (now clock : ℕ) (q : TimerQueue)
    → q.created < max_sequence
    → AreTimed callbacks
    → IsConsistent q
    → IsRound callbacks now clock q
unfolding handle_read reset get_expired
handle_read-IsRound callbacks now clock q few h c =
    let unarmed : IsConsistent (record q { alarm = none }) = record {
      ascending = c.ascending;
      distinct = c.distinct;
      timed = c.timed;
      active = c.active;
    } in
    let s = split_below-IsSplit (now, max_sequence) q.timers c.ascending in
    let k = get_expired-IsTaken now (record q { alarm = none }) unarmed in
    let r = k.rest_consistent in
    let expired : List Timer = (get_expired now (record q { alarm = none })).0 in
    let start : IsConsistent (before_calls now q) = record {
      ascending = r.ascending;
      distinct = r.distinct;
      timed = r.timed;
      active = r.active;
    } in
    let (d, apart) =
      run_expired-IsConsistent callbacks expired (before_calls now q) expired h start
        k.rest_apart in
    let ran : TimerQueue = after_calls callbacks now q in
    let again = restart_expired-ComesAgain expired now ran k.expired_distinct apart in
    record {
      expired = expired;
      later = (split_below (now, max_sequence) q.timers).1;
      taken = refl;
      together = s.together;
      calls =
          arm_first-called clock (restart_expired expired now ran).timers
            (restart_expired expired now ran)
          ∙ restart_expired-called expired now ran
          ∙ run_expired-called callbacks expired (before_calls now q);
      all_due = All-map _ _ expired (due now) s.all_below;
      none_due =
          All-zip _ _ _ (split_below (now, max_sequence) q.timers).1
            (λ t g e. not_due now q.created t few g e) r.timed s.none_below;
      again =
          All-map _ _ expired
            (λ t comes repeats never.
              subst (IsIn (restart now t))
                (sym (
                  timers-arm_first clock (restart_expired expired now ran).timers
                    (restart_expired expired now ran)))
                (comes repeats (
                  run_expired-canceling (id_of t) callbacks expired (before_calls now q) never
                    refl)))
            again;
    }
