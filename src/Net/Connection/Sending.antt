-- ===== src/Net/Connection/Sending.antt =====
-- What a connection of server/muduo/TcpConnection.cc makes of what it is given to send.
use arena_game.Prelude.{
  ◌+◌, ◌-◌, ◌≡◌, ◌≢◌, refl, ap, sym, subst, ◌∙◌, Bool, true, false, not, ◌&&◌, [], ◌∷◌, ◌++◌,
  append_assoc, append-nil, ◌==◌, nat_eq, length, take, drop, arith, if_cases,
}
use arena_game.Wire.Stream.{Bytes}
use arena_game.Net.Buffer.{readable_bytes, append}
use arena_game.Net.Buffer.Contents.{Holds, readable_bytes-Holds, append-Holds}
use arena_game.Net.Buffer.Io.{take-drop}
use arena_game.Net.Channel.{is_writing}
use arena_game.Net.Poller.{enable_writing, disable_writing}
use arena_game.Net.Poller.Registration.{
  Agrees, run_channel-IsUpdated, enables_writing, disables_writing, events-update_channel,
}
use arena_game.Net.Connection.{
  Connection, connected, is_disconnected, is_disconnecting, Task, write_complete_task, on_channel,
  queue_if, put_out, WriteOutcome, wrote, would_block, broken, write_failed, start_writing,
  passes_mark, high_water_mark_task, keep_rest, send_outcome, send_in_loop,
}

abbrev pub is_empty : Bytes → Bool
is_empty [] = true
is_empty (b ∷ bs) = false

-- A connection that is not closed, with `waiting` in its output buffer: it watches for room to write
-- exactly while something waits, and its writing side is shut exactly where that was asked for and
-- nothing waits.
pub record IsOpen (c : Connection) (waiting : Bytes) : Type 0 where
  pub lives : is_disconnected c.state ≡ false
  pub holds : Holds c.output_buffer waiting
  pub agrees : Agrees c.channel.index c.channel c.poller
  pub alive : c.poller.fatal ≡ false
  pub writing : is_writing c.channel ≡ not (is_empty waiting)
  pub shut : c.socket.write_shut ≡ (is_disconnecting c.state && is_empty waiting)

-- The channel and the poller of a connection are in order.
pub record IsWatched (c : Connection) : Type 0 where
  pub watched_agrees : Agrees c.channel.index c.channel c.poller
  pub watched_alive : c.poller.fatal ≡ false

enable_writing-IsWatched :
    (c : Connection)
    → IsWatched c
    → IsWatched (on_channel enable_writing c)
      × (is_writing (on_channel enable_writing c).channel ≡ true)
unfolding enable_writing is_writing
enable_writing-IsWatched c w =
    let u = run_channel-IsUpdated enables_writing c.channel c.poller w.watched_agrees in
    (
      record { watched_agrees = u.agrees; watched_alive = u.runs ∙ w.watched_alive },
      ap (λ e. e.writes)
          (events-update_channel c.channel.index
            (record c.channel { events = record c.channel.events { writes = true } }) c.poller),
    )

pub disable_writing-IsWatched :
    (c : Connection)
    → IsWatched c
    → IsWatched (on_channel disable_writing c)
      × (is_writing (on_channel disable_writing c).channel ≡ false)
unfolding disable_writing is_writing
disable_writing-IsWatched c w =
    let u = run_channel-IsUpdated disables_writing c.channel c.poller w.watched_agrees in
    (
      record { watched_agrees = u.agrees; watched_alive = u.runs ∙ w.watched_alive },
      ap (λ e. e.writes)
          (events-update_channel c.channel.index
            (record c.channel { events = record c.channel.events { writes = false } }) c.poller),
    )

-- A connection that is connected, without `shut`.
abbrev IsConnected : Connection → Type 0
IsConnected c = c.state ≡ connected

queue_if-IsOpen :
    (b : Bool) (task : Task) (c : Connection) (w : Bytes)
    → IsOpen c w
    → IsOpen (queue_if b task c) w
      × ((queue_if b task c).state ≡ c.state)
      × ((queue_if b task c).socket ≡ c.socket)
queue_if-IsOpen true task c w o = (
  record {
    lives = o.lives;
    holds = o.holds;
    agrees = o.agrees;
    alive = o.alive;
    writing = o.writing;
    shut = o.shut;
  },
  refl,
  refl,
)
queue_if-IsOpen false task c w o = (o, refl, refl)

pub not_empty : (xs ys : Bytes) → length ys ≢ 0 → is_empty (xs ++ ys) ≡ false
not_empty [] [] h = absurd (h refl)
not_empty [] (y ∷ ys) h = refl
not_empty (x ∷ xs) ys h = refl

pub nil-length : (xs : Bytes) → length xs ≡ 0 → xs ≡ []
nil-length [] h = refl
nil-length (x ∷ xs) h = absurd (omega (arith, h))

-- What a call makes of a connection: what waits then, its state and its socket.
record IsStill (c : Connection) (w : Bytes) (d : Connection) : Type 0 where
  opened : IsOpen d w
  same_state : d.state ≡ c.state
  same_socket : d.socket ≡ c.socket

connected-shut :
    (c : Connection) (w v : Bytes)
    → IsOpen c w
    → c.state ≡ connected
    → c.socket.write_shut ≡ (is_disconnecting c.state && is_empty v)
connected-shut c w v o now = ground (arith, o.shut, now)

start_writing-IsStill :
    (rest : Bytes) (c : Connection) (w : Bytes)
    → IsOpen c w
    → c.state ≡ connected
    → length rest ≢ 0
    → IsStill c (w ++ rest) (start_writing rest c)
unfolding start_writing
start_writing-IsStill rest c w o now some_rest =
    let kept : Connection = record c { output_buffer = append rest c.output_buffer } in
    let held = append-Holds rest c.output_buffer w o.holds in
    let more = not_empty w rest some_rest in
    let still_open : c.socket.write_shut ≡ (is_disconnecting c.state && is_empty (w ++ rest)) =
      connected-shut c w (w ++ rest) o now in
    if_cases (IsStill c (w ++ rest)) (is_writing c.channel) kept (on_channel enable_writing kept)
      (λ f. record {
        opened = record {
          lives = o.lives;
          holds = held;
          agrees = o.agrees;
          alive = o.alive;
          writing = f ∙ rw more refl;
          shut = still_open;
        };
        same_state = refl;
        same_socket = refl;
      })
      (λ f.
        let (watched, on) =
          enable_writing-IsWatched kept
            (record { watched_agrees = o.agrees; watched_alive = o.alive }) in
        record {
          opened = record {
            lives = o.lives;
            holds = held;
            agrees = watched.watched_agrees;
            alive = watched.watched_alive;
            writing = on ∙ rw more refl;
            shut = still_open;
          };
          same_state = refl;
          same_socket = refl;
        })

keep_rest-IsStill :
    (rest : Bytes) (c : Connection) (w : Bytes)
    → IsOpen c w
    → c.state ≡ connected
    → IsStill c (w ++ rest) (keep_rest rest c)
unfolding keep_rest
keep_rest-IsStill rest c w o now =
    let task = high_water_mark_task (readable_bytes c.output_buffer + length rest) in
    let high = passes_mark (length rest) c in
    let (opened, same_state, same_socket) = queue_if-IsOpen high task c w o in
    if_cases (IsStill c (w ++ rest)) (length rest == 0) c
      (start_writing rest (queue_if high task c))
      (λ e. record {
        opened = subst (IsOpen c) (nil_rest rest (ground (arith, e))) o;
        same_state = refl;
        same_socket = refl;
      })
      (λ e.
        let s =
          start_writing-IsStill rest (queue_if high task c) w opened (same_state ∙ now)
            (ground (arith, e)) in
        record {
          opened = s.opened;
          same_state = s.same_state ∙ same_state;
          same_socket = s.same_socket ∙ same_socket;
        })
  where
    nil_rest : (r : Bytes) → length r ≡ 0 → w ≡ w ++ r
    nil_rest [] h = sym (append-nil w)
    nil_rest (x ∷ r) h = absurd (omega (arith, h))

-- What a call makes of a connection that was given `more` to send: it is sent or waits, in order.
pub record IsDelivering (c : Connection) (w more : Bytes) (d : Connection) : Type 0 where
  pub waiting : Bytes
  pub is_open : IsOpen d waiting
  pub in_order : d.socket.sent ++ waiting ≡ (c.socket.sent ++ w) ++ more

module _ (c : Connection) (w bytes : Bytes) (o : IsOpen c w) (now : c.state ≡ connected) where
  wait_all : (b : Connection) → IsStill c (w ++ bytes) b → IsDelivering c w bytes b
  wait_all b s = record {
    waiting = w ++ bytes;
    is_open = s.opened;
    in_order =
        ap (λ k. k.sent ++ (w ++ bytes)) s.same_socket ∙ sym (append_assoc c.socket.sent w bytes);
  }

  send_now :
      (outcome : WriteOutcome)
      → outcome ≢ broken
      → w ≡ []
      → IsDelivering c w bytes (send_outcome outcome bytes c)
  unfolding send_outcome
  send_now (wrote n) fine nothing =
      let base : Connection = put_out (take n bytes) c in
      let opened : IsOpen base w = record {
        lives = o.lives;
        holds = o.holds;
        agrees = o.agrees;
        alive = o.alive;
        writing = o.writing;
        shut = o.shut;
      } in
      let done = length bytes - n == 0 && c.has_write_complete in
      let (queued, same_state, same_socket) =
        queue_if-IsOpen done write_complete_task base w opened in
      let s =
        keep_rest-IsStill (drop n bytes) (queue_if done write_complete_task base) w queued
          (same_state ∙ now) in
      record {
        waiting = w ++ drop n bytes;
        is_open = s.opened;
        in_order =
            ap (λ k. k.sent ++ (w ++ drop n bytes)) (s.same_socket ∙ same_socket) ∙ split w nothing;
      }
    where
      split :
          (v : Bytes)
          → v ≡ []
          → (c.socket.sent ++ take n bytes) ++ (v ++ drop n bytes) ≡ (c.socket.sent ++ v) ++ bytes
      split [] e =
          append_assoc c.socket.sent (take n bytes) (drop n bytes)
          ∙ ap (λ z. c.socket.sent ++ z) (take-drop n bytes)
          ∙ ap (λ z. z ++ bytes) (sym (append-nil c.socket.sent))
      split (x ∷ v) e = absurd (cc)
  send_now would_block fine nothing = wait_all _ (keep_rest-IsStill bytes c w o now)
  send_now broken fine nothing = absurd (fine refl)
  send_now write_failed fine nothing = wait_all _ (keep_rest-IsStill bytes c w o now)

  pub send_in_loop-IsDelivering :
      (outcome : WriteOutcome)
      → outcome ≢ broken
      → IsDelivering c w bytes (send_in_loop outcome bytes c)
  unfolding send_in_loop
  send_in_loop-IsDelivering outcome fine =
      if_cases (IsDelivering c w bytes) (is_disconnected c.state) c _
        (λ e. absurd (ground (arith, e, o.lives)))
        (λ e.
          if_cases (IsDelivering c w bytes)
            (not (is_writing c.channel) && readable_bytes c.output_buffer == 0) _ _
            (λ f.
              send_now outcome fine
                (nil-length w (ground (arith, f, readable_bytes-Holds c.output_buffer w o.holds))))
            (λ f. wait_all _ (keep_rest-IsStill bytes c w o now)))
