-- ===== src/Net/Timers/Invariant.antt =====
-- What every operation of server/muduo/TimerQueue.cc keeps.
use arena_game.Prelude.{
  ℕ, ◌+◌, ◌≤◌, ◌<◌, ◌≡◌, refl, ap, sym, subst, ◌∙◌, Bool, true, false, not, ◌&&◌, ◌||◌, List, [],
  ◌∷◌, ◌++◌, All, nat_eq, arith, if_cases,
}
use arena_game.Prelude.OrderedSet.{Key, key_eq, contains, contains-set_insert, contains-set_erase}
use arena_game.Net.Timers.{
  Timer, TimerQueue, repeat, restart, id_of, insert_entry, is_earliest, insert_timer, arm_if,
  add_timer_in_loop, new_timer, add_timer, cancel_in_loop, TimerCall, adds, cancels, make_call,
  make_calls, split_below, max_sequence, get_expired, restart_expired, run_expired,
}
use arena_game.Net.Timers.Entries.{
  has_id, has_sequence, IsAscending, IsDistinct, insert_entry-All, insert_entry-IsAscending,
  has_id-insert_entry, has_sequence-insert_entry, insert_entry-IsDistinct, erase_entry-All,
  erase_entry-IsAscending, has_id-erase_entry, has_sequence-erase_entry, erase_entry-IsDistinct,
  split_below-IsSplit, append-IsDistinct, All-append, contains-erase_active,
}

abbrev pub IsTimed : ℕ → Timer → Type 0
IsTimed created t = (t.sequence ≤ created) × (0 < t.expiration)

-- The entries are in order, each number stands once and was given out, each time is one, and the
-- active timers are the same.
pub record IsConsistent (q : TimerQueue) : Type 0 where
  pub ascending : IsAscending q.timers
  pub distinct : IsDistinct q.timers
  pub timed : All (IsTimed q.created) q.timers
  pub active : (k : Key) → contains k q.active_timers ≡ has_id k q.timers

fresh_sequence : (n s : ℕ) (l : List Timer) → n < s → All (IsTimed n) l → has_sequence s l ≡ false
fresh_sequence n s [] h a = refl
fresh_sequence n s (t ∷ l) h ((b, c), a) = ground (arith, h, b, fresh_sequence n s l h a)

pub All-map :
    (P Q : Timer → Type 0) (l : List Timer) → ((t : Timer) → P t → Q t) → All P l → All Q l
All-map P Q [] f a = tt
All-map P Q (t ∷ l) f (h, a) = (f t h, All-map P Q l f a)

insert_timer-IsConsistent :
    (t : Timer) (q : TimerQueue)
    → IsConsistent q
    → has_sequence t.sequence q.timers ≡ false
    → IsTimed q.created t
    → IsConsistent (insert_timer t q).0
unfolding insert_timer
insert_timer-IsConsistent t q c fresh timed = record {
  ascending = insert_entry-IsAscending t q.timers c.ascending;
  distinct = insert_entry-IsDistinct t q.timers fresh c.distinct;
  timed = insert_entry-All t (IsTimed q.created) q.timers timed c.timed;
  active = λ k.
      contains-set_insert (id_of t) k q.active_timers
      ∙ ap (λ b. key_eq (id_of t) k || b) (c.active k)
      ∙ sym (has_id-insert_entry t k q.timers fresh);
}

-- A call has a time that is one.
abbrev pub IsTimedCall : TimerCall → Type 0
IsTimedCall (adds now address callback time interval) = 0 < time
IsTimedCall (cancels id) = Unit {0}

-- Setting the alarm changes nothing else.
pub arm_if-IsConsistent :
    (b : Bool) (now time : ℕ) (q : TimerQueue) → IsConsistent q → IsConsistent (arm_if b now time q)
arm_if-IsConsistent true now time q c = record {
  ascending = c.ascending;
  distinct = c.distinct;
  timed = c.timed;
  active = c.active;
}
arm_if-IsConsistent false now time q c = c

pub make_call-IsConsistent :
    (call : TimerCall) (q : TimerQueue)
    → IsTimedCall call
    → IsConsistent q
    → IsConsistent (make_call call q)
unfolding add_timer add_timer_in_loop cancel_in_loop
make_call-IsConsistent (adds now address callback time interval) q h c =
    let t = new_timer address callback time interval q in
    let q' : TimerQueue = record q { created = q.created + 1 } in
    let c' : IsConsistent q' = record {
      ascending = c.ascending;
      distinct = c.distinct;
      timed =
          All-map (IsTimed q.created) (IsTimed (q.created + 1)) q.timers
            (λ u (s, p). (omega (arith, s), p)) c.timed;
      active = c.active;
    } in
    arm_if-IsConsistent (is_earliest time q.timers) now time (insert_timer t q').0 (
      insert_timer-IsConsistent t q' c'
        (fresh_sequence q.created (q.created + 1) q.timers (omega arith) c.timed) (omega arith, h))
make_call-IsConsistent (cancels id) q h c =
    if_cases IsConsistent (contains id q.active_timers) _ _
      (λ e. record {
        ascending = erase_entry-IsAscending id q.timers c.ascending;
        distinct = erase_entry-IsDistinct id q.timers c.distinct;
        timed = erase_entry-All id (IsTimed q.created) q.timers c.timed;
        active = λ k.
            contains-set_erase id k q.active_timers
            ∙ ap (λ b. not (key_eq id k) && b) (c.active k)
            ∙ sym (has_id-erase_entry id k q.timers);
      })
      (λ e.
        if_cases IsConsistent q.calling_expired_timers _ q
          (λ f. record {
            ascending = c.ascending;
            distinct = c.distinct;
            timed = c.timed;
            active = c.active;
          })
          (λ f. c))

-- Timers that were given out and are not in the queue.
abbrev pub IsApart : List Timer → TimerQueue → Type 0
IsApart l q = All (λ t. (has_sequence t.sequence q.timers ≡ false) × (t.sequence ≤ q.created)) l

make_call-IsApart :
    (call : TimerCall) (q : TimerQueue) (l : List Timer)
    → IsConsistent q
    → IsApart l q
    → IsApart l (make_call call q)
unfolding add_timer add_timer_in_loop insert_timer cancel_in_loop
make_call-IsApart (adds now address callback time interval) q l c a =
    let t = new_timer address callback time interval q in
    if_cases (IsApart l) (is_earliest time q.timers) _ _ (λ e. inserted) (λ e. inserted)
  where
    inserted :
        All
          (λ u.
            (has_sequence u.sequence
                (insert_entry (new_timer address callback time interval q) q.timers)
              ≡ false)
            × (u.sequence ≤ q.created + 1))
          l
    inserted =
        All-map _ _ l
          (λ u (b, d). (
            has_sequence-insert_entry (new_timer address callback time interval q) u.sequence
                  q.timers (fresh_sequence q.created (q.created + 1) q.timers (omega arith) c.timed)
                ∙ ground (arith, b, d),
            omega (arith, d),
          ))
          a
make_call-IsApart (cancels id) q l c a =
    if_cases (IsApart l) (contains id q.active_timers) _ _
      (λ e. All-map _ _ l (λ u (b, d). (has_sequence-erase_entry id u.sequence q.timers b, d)) a)
      (λ e. if_cases (IsApart l) q.calling_expired_timers _ q (λ f. a) (λ f. a))

make_calls-IsConsistent :
    (calls : List TimerCall) (q : TimerQueue) (l : List Timer)
    → All IsTimedCall calls
    → IsConsistent q
    → IsApart l q
    → IsConsistent (make_calls calls q) × IsApart l (make_calls calls q)
make_calls-IsConsistent [] q l h c a = (c, a)
make_calls-IsConsistent (call ∷ calls) q l (h, hs) c a =
    make_calls-IsConsistent calls (make_call call q) l hs (make_call-IsConsistent call q h c)
      (make_call-IsApart call q l c a)

-- The callbacks call the queue with times that are times.
abbrev pub AreTimed : (ℕ → List TimerCall) → Type 0
AreTimed callbacks = (n : ℕ) → All IsTimedCall (callbacks n)

pub run_expired-IsConsistent :
    (callbacks : ℕ → List TimerCall) (ran : List Timer) (q : TimerQueue) (l : List Timer)
    → AreTimed callbacks
    → IsConsistent q
    → IsApart l q
    → IsConsistent (run_expired callbacks ran q) × IsApart l (run_expired callbacks ran q)
run_expired-IsConsistent callbacks [] q l h c a = (c, a)
run_expired-IsConsistent callbacks (t ∷ ran) q l h c a =
    let running : TimerQueue = record q { called = q.called ++ (t.callback ∷ []) } in
    let r : IsConsistent running = record {
      ascending = c.ascending;
      distinct = c.distinct;
      timed = c.timed;
      active = c.active;
    } in
    let (c', a') = make_calls-IsConsistent (callbacks t.callback) running l (h t.callback) r a in
    run_expired-IsConsistent callbacks ran (make_calls (callbacks t.callback) running) l h c' a'

-- An expired timer that is inserted again leaves the others apart.
pub restart-IsApart :
    (t : Timer) (now : ℕ) (q : TimerQueue) (l : List Timer)
    → has_sequence t.sequence q.timers ≡ false
    → has_sequence t.sequence l ≡ false
    → IsApart l q
    → IsApart l (insert_timer (restart now t) q).0
unfolding insert_timer
restart-IsApart t now q [] h d a = tt
restart-IsApart t now q (u ∷ l) h d ((b, e), a) = (
  (has_sequence-insert_entry (restart now t) u.sequence q.timers h ∙ ground (arith, b, d), e),
  restart-IsApart t now q l h (ground (arith, d)) a,
)

restart-IsTimed :
    (t : Timer) (now n : ℕ) → repeat t ≡ true → 0 < now → t.sequence ≤ n → IsTimed n (restart now t)
restart-IsTimed t now n r p h = (h, ground (arith, r, p))

pub restart_expired-IsConsistent :
    (expired : List Timer) (now : ℕ) (q : TimerQueue)
    → 0 < now
    → IsDistinct expired
    → IsConsistent q
    → IsApart expired q
    → IsConsistent (restart_expired expired now q)
unfolding restart_expired
restart_expired-IsConsistent [] now q p d c a = c
restart_expired-IsConsistent (t ∷ l) now q p (new, d) c ((b, s), a) =
    if_cases IsConsistent (repeat t && not (contains (id_of t) q.canceling_timers)) _ _
      (λ e.
        restart_expired-IsConsistent l now (insert_timer (restart now t) q).0 p d
          (insert_timer-IsConsistent (restart now t) q c b
            (restart-IsTimed t now q.created (ground (arith, e)) p s))
          (restart-IsApart t now q l b new a))
      (λ e. restart_expired-IsConsistent l now q p d c a)

-- `getExpired` takes the first entries out of the queue.
pub record IsTaken (q : TimerQueue) (expired : List Timer) (rest : TimerQueue) : Type 0 where
  pub rest_consistent : IsConsistent rest
  pub rest_apart : IsApart expired rest
  pub expired_distinct : IsDistinct expired
  pub same_created : rest.created ≡ q.created

zip_apart :
    (n : ℕ) (later l : List Timer)
    → All (λ t. has_sequence t.sequence later ≡ false) l
    → All (IsTimed n) l
    → All (λ t. (has_sequence t.sequence later ≡ false) × (t.sequence ≤ n)) l
zip_apart n later [] a b = tt
zip_apart n later (t ∷ l) (h, a) ((g, p), b) = ((h, g), zip_apart n later l a b)

pub get_expired-IsTaken :
    (now : ℕ) (q : TimerQueue)
    → IsConsistent q
    → IsTaken q (get_expired now q).0 (get_expired now q).1
unfolding get_expired
get_expired-IsTaken now q c =
    let s = split_below-IsSplit (now, max_sequence) q.timers c.ascending in
    let expired : List Timer = (split_below (now, max_sequence) q.timers).0 in
    let later : List Timer = (split_below (now, max_sequence) q.timers).1 in
    let both : IsDistinct (expired ++ later) = subst IsDistinct s.together c.distinct in
    let (first, second, apart) = append-IsDistinct expired later both in
    let (timed, later_timed) =
      All-append (IsTimed q.created) expired later
        (subst (All (IsTimed q.created)) s.together c.timed) in
    record {
      rest_consistent = record {
        ascending = s.above_ascends;
        distinct = second;
        timed = later_timed;
        active = λ k.
            contains-erase_active k expired later q.active_timers both
              (c.active k ∙ ap (λ l. has_id k l) s.together);
      };
      rest_apart = zip_apart q.created later expired apart timed;
      expired_distinct = first;
      same_created = refl;
    }
