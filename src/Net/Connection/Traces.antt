-- ===== src/Net/Connection/Traces.antt =====
-- Runs of a connection of server/muduo/TcpConnection.cc in its loop, as sequences of steps.
use arena_game.Prelude.{
  ℕ, zero, suc, ◌-◌, ◌≤◌, ◌≡◌, ◌≢◌, refl, ap, sym, ◌∙◌, Bool, true, false, not, none, some, [], ◌∷◌,
  ◌++◌, append_assoc, append-nil, nat_eq, ltb, length, length-drop, drop, if◌then◌else◌, arith,
  if_cases,
}
use arena_game.Wire.Stream.{Bytes}
use arena_game.Net.Buffer.{readable_bytes}
use arena_game.Net.Channel.{is_writing}
use arena_game.Net.Buffer.Contents.{readable_bytes-Holds}
use arena_game.Net.Connection.{
  Connection, ConnectionState, disconnected, connecting, connected, disconnecting, is_connected,
  WriteOutcome, broken, send, send_in_loop, shutdown, shutdown_in_loop, handle_write,
}
use arena_game.Net.Connection.Sending.{IsOpen, send_in_loop-IsDelivering}
use arena_game.Net.Connection.Closing.{
  IsHandled, shutdown-IsOpen, handle_write-none, handle_write-some,
}

-- What a connection takes of what it is given to send.
abbrev pub accepted : Connection → Bytes → Bytes
accepted c bytes = if is_connected c.state then bytes else []

-- The connection `d` that has come from `c` by calls in the thread of the loop, and what it took to
-- send. The system is never given up on by a broken pipe, and takes no more than there is.
pub data Run (c : Connection) : Bytes → Connection → Type 0 where
  begins : Run c [] c
  and_send :
      (given : Bytes) (d : Connection) (outcome : WriteOutcome) (bytes : Bytes)
      → Run c given d
      → outcome ≢ broken
      → Run c (given ++ accepted d bytes) (send true outcome bytes d)
  and_shutdown : (given : Bytes) (d : Connection) → Run c given d → Run c given (shutdown true d)
  and_write :
      (given : Bytes) (d : Connection) (n : ℕ)
      → Run c given d
      → n ≤ readable_bytes d.output_buffer
      → Run c given (handle_write (some n) d)
  and_fail : (given : Bytes) (d : Connection) → Run c given d → Run c given (handle_write none d)

-- A connection that has come from `c`: what it has sent and what waits is all that it was given.
pub record IsReached (c : Connection) (w given : Bytes) (d : Connection) : Type 0 where
  pub waiting : Bytes
  pub reached_open : IsOpen d waiting
  pub in_order : d.socket.sent ++ waiting ≡ (c.socket.sent ++ w) ++ given

is_now : (s : ConnectionState) → is_connected s ≡ true → s ≡ connected
is_now disconnected h = absurd (ground (arith, h))
is_now connecting h = absurd (ground (arith, h))
is_now connected h = refl
is_now disconnecting h = absurd (ground (arith, h))

write_more :
    (c d : Connection) (w v given : Bytes) (n : ℕ)
    → IsOpen d v
    → d.socket.sent ++ v ≡ (c.socket.sent ++ w) ++ given
    → n ≤ length v
    → IsReached c w given (handle_write (some n) d)
write_more c d w v given zero o order le =
    let h = (handle_write-none d v o).1 in
    record { waiting = v; reached_open = h.left_open; in_order = h.left_order ∙ order }
write_more c d w v given (suc n) o order le =
    let h = handle_write-some d v o n le in
    record { waiting = drop (suc n) v; reached_open = h.left_open; in_order = h.left_order ∙ order }

sent_more :
    (c d : Connection) (w v given : Bytes) (bytes : Bytes)
    → IsOpen d v
    → d.socket.sent ++ v ≡ (c.socket.sent ++ w) ++ given
    → (outcome : WriteOutcome) → outcome ≢ broken
    → IsReached c w (given ++ accepted d bytes) (send true outcome bytes d)
unfolding send
sent_more c d w v given bytes o order outcome fine = by_state (is_connected d.state) refl
  where
    by_state :
        (b : Bool)
        → is_connected d.state ≡ b
        → IsReached c w
            (given ++ (if b then bytes else []))
            (if b then send_in_loop outcome bytes d else d)
    by_state true e =
        let s = send_in_loop-IsDelivering d v bytes o (is_now d.state e) outcome fine in
        record {
          waiting = s.waiting;
          reached_open = s.is_open;
          in_order =
              s.in_order
              ∙ ap (λ z. z ++ bytes) order
              ∙ append_assoc (c.socket.sent ++ w) given bytes;
        }
    by_state false e = record {
      waiting = v;
      reached_open = o;
      in_order = order ∙ ap (λ z. (c.socket.sent ++ w) ++ z) (sym (append-nil given));
    }

-- After any run of sends, writes and shutdowns of a connection that was open, in which no write
-- meets a broken pipe, what the socket has sent and what still waits are exactly the bytes that
-- were given, in their order; the connection asks for room to write exactly while bytes wait, and
-- its writing side is shut exactly where that was asked for and none wait.
pub run-IsReached :
    (c : Connection) (w given : Bytes) (d : Connection)
    → IsOpen c w
    → Run c given d
    → IsReached c w given d
run-IsReached c w given d o begins = record {
  waiting = w;
  reached_open = o;
  in_order = sym (append-nil (c.socket.sent ++ w));
}
run-IsReached c w given d o (and_send before e outcome bytes run fine) =
    let r = run-IsReached c w before e o run in
    sent_more c e w r.waiting before bytes r.reached_open r.in_order outcome fine
run-IsReached c w given d o (and_shutdown before e run) =
    let r = run-IsReached c w before e o run in
    let (opened, order) = shutdown-IsOpen e r.waiting r.reached_open in
    record { waiting = r.waiting; reached_open = opened; in_order = order ∙ r.in_order }
run-IsReached c w given d o (and_write before e n run le) =
    let r = run-IsReached c w before e o run in
    write_more c e w r.waiting before n r.reached_open r.in_order
      (ground (arith, le, readable_bytes-Holds e.output_buffer r.waiting r.reached_open.holds))
run-IsReached c w given d o (and_fail before e run) =
    let r = run-IsReached c w before e o run in
    let h = (handle_write-none e r.waiting r.reached_open).0 in
    record { waiting = r.waiting; reached_open = h.left_open; in_order = h.left_order ∙ r.in_order }

-- One round in which the system takes some bytes, one at least and `choice` more at most.
abbrev pub write_round : ℕ → Connection → Connection
write_round choice c =
    handle_write
      (some (
        if ltb choice (readable_bytes c.output_buffer)
        then suc choice
        else readable_bytes c.output_buffer))
      c

abbrev pub write_rounds : ℕ → (ℕ → ℕ) → Connection → Connection
write_rounds zero choices c = c
write_rounds (suc rounds) choices c =
    write_rounds rounds (λ n. choices (suc n)) (write_round (choices 0) c)

write_round-IsHandled :
    (choice : ℕ) (c : Connection) (w : Bytes)
    → IsOpen c w
    → (left : Bytes) × IsHandled c (c.socket.sent ++ w) left (write_round choice c)
      × (length left ≤ length w - 1)
write_round-IsHandled choice c w o =
    let n : ℕ =
      if ltb choice (readable_bytes c.output_buffer)
      then suc choice
      else readable_bytes c.output_buffer in
    let size : readable_bytes c.output_buffer ≡ length w =
      readable_bytes-Holds c.output_buffer w o.holds in
    by_size n (ground (arith, size)) (ground (arith, size))
  where
    by_size :
        (n : ℕ)
        → n ≤ length w
        → length w - n ≤ length w - 1
        → (left : Bytes) × IsHandled c (c.socket.sent ++ w) left (handle_write (some n) c)
          × (length left ≤ length w - 1)
    by_size zero le less = (w, (handle_write-none c w o).1, omega (arith, less))
    by_size (suc n) le less =
        (drop (suc n) w, handle_write-some c w o n le, omega (arith, less, length-drop (suc n) w))

write_rounds-IsHandled :
    (rounds : ℕ) (choices : ℕ → ℕ) (c : Connection) (w : Bytes)
    → IsOpen c w
    → length w ≤ rounds
    → IsHandled c (c.socket.sent ++ w) [] (write_rounds rounds choices c)
write_rounds-IsHandled zero choices c [] o le = record {
  left_open = o;
  left_order = refl;
  left_state = refl;
}
write_rounds-IsHandled zero choices c (x ∷ w) o le = absurd (omega arith)
write_rounds-IsHandled (suc rounds) choices c w o le =
    let (left, h, fewer) = write_round-IsHandled (choices 0) c w o in
    let k =
      write_rounds-IsHandled rounds (λ n. choices (suc n)) (write_round (choices 0) c) left
        h.left_open (omega (arith, fewer, le)) in
    record {
      left_open = k.left_open;
      left_order = k.left_order ∙ h.left_order;
      left_state = k.left_state ∙ h.left_state;
    }

shutdown-state : (c : Connection) → c.state ≡ connected → (shutdown true c).state ≡ disconnecting
unfolding shutdown shutdown_in_loop
shutdown-state c e =
    if_cases (λ (d : Connection). d.state ≡ disconnecting) (is_connected c.state) _ c
      (λ f.
        if_cases (λ (d : Connection). d.state ≡ disconnecting) (not (is_writing c.channel)) _ _
          (λ g. refl) (λ g. refl))
      (λ f. absurd (ground (arith, e, f)))

-- Where a connected connection is shut down while some bytes wait, and the system then takes one
-- byte at least whenever there is room, as many rounds as bytes waited are enough: all of them are
-- sent, and the writing side is shut.
pub write_rounds-shutdown :
    (c : Connection) (w : Bytes) (rounds : ℕ) (choices : ℕ → ℕ)
    → IsOpen c w
    → c.state ≡ connected
    → length w ≤ rounds
    → let d : Connection = write_rounds rounds choices (shutdown true c) in
      (d.socket.sent ≡ c.socket.sent ++ w) × (d.socket.write_shut ≡ true)
write_rounds-shutdown c w rounds choices o now le =
    let (opened, order) = shutdown-IsOpen c w o in
    let h = write_rounds-IsHandled rounds choices (shutdown true c) w opened le in
    let shut : (write_rounds rounds choices (shutdown true c)).state ≡ disconnecting =
      h.left_state ∙ shutdown-state c now in
    (sym (append-nil _) ∙ h.left_order ∙ order, h.left_open.shut ∙ rw shut refl)
