-- ===== src/Net/Connection/Closing.antt =====
-- How a connection of server/muduo/TcpConnection.cc writes what waits, and how it is shut.
use arena_game.Prelude.{
  ℕ, suc, ◌≤◌, ◌≡◌, ◌≢◌, refl, ap, sym, ◌∙◌, Bool, true, false, not, ◌&&◌, none, some, [], ◌∷◌,
  ◌++◌, append_assoc, append-nil, ◌==◌, nat_eq, length, take, drop, if◌then◌else◌, arith, if_cases,
}
use arena_game.Wire.Stream.{Bytes}
use arena_game.Net.Buffer.{readable_bytes, retrieve, peek}
use arena_game.Net.Buffer.Contents.{Holds, readable_bytes-Holds, peek-Holds, retrieve-Holds}
use arena_game.Net.Buffer.Io.{write_fd, take-drop}
use arena_game.Net.Channel.{is_writing}
use arena_game.Net.Poller.{disable_writing}
use arena_game.Net.Connection.{
  Connection, ConnectionState, disconnected, connecting, connected, disconnecting, is_connected,
  is_disconnected, is_disconnecting, on_channel, put_out, shutdown_in_loop, shutdown, finish_write,
  after_write, handle_write,
}
use arena_game.Net.Connection.Sending.{
  is_empty, IsOpen, IsWatched, disable_writing-IsWatched, not_empty, nil-length,
}

and_false : (b : Bool) → (b && false) ≡ false
and_false true = refl
and_false false = refl

connected-not_shut :
    (c : Connection) (w : Bytes)
    → IsOpen c w
    → is_connected c.state ≡ true
    → c.socket.write_shut ≡ false
connected-not_shut c w o e = o.shut ∙ not_both c.state e
  where
    not_both :
        (s : ConnectionState) → is_connected s ≡ true → (is_disconnecting s && is_empty w) ≡ false
    not_both disconnected h = refl
    not_both connecting h = refl
    not_both connected h = refl
    not_both disconnecting h = absurd (ground (arith, h))

-- A connection that is to be shut, before it is known whether it is.
record IsClosing (c : Connection) (w : Bytes) : Type 0 where
  closing : c.state ≡ disconnecting
  closing_holds : Holds c.output_buffer w
  closing_watched : IsWatched c
  closing_writing : is_writing c.channel ≡ not (is_empty w)
  not_shut : c.socket.write_shut ≡ false

-- What a call makes of a connection: `left` waits, and that and what was sent are `total`.
pub record IsHandled (c : Connection) (total left : Bytes) (d : Connection) : Type 0 where
  pub left_open : IsOpen d left
  pub left_order : d.socket.sent ++ left ≡ total
  pub left_state : d.state ≡ c.state

length-full : {n : ℕ} (w : Bytes) → suc n ≤ length w → is_empty w ≡ false
length-full [] h = absurd (omega (arith, h))
length-full (x ∷ w) h = refl

shutdown_in_loop-IsHandled :
    (c : Connection) (w : Bytes)
    → IsClosing c w
    → IsHandled c (c.socket.sent ++ w) w (shutdown_in_loop c)
unfolding shutdown_in_loop
shutdown_in_loop-IsHandled c w k =
    if_cases (IsHandled c (c.socket.sent ++ w) w) (not (is_writing c.channel)) _ c
      (λ e. record {
        left_open = record {
          lives = rw k.closing refl;
          holds = k.closing_holds;
          agrees = k.closing_watched.watched_agrees;
          alive = k.closing_watched.watched_alive;
          writing = k.closing_writing;
          shut = ground (arith, e, k.closing, k.closing_writing);
        };
        left_order = refl;
        left_state = refl;
      })
      (λ e. record {
        left_open = record {
          lives = rw k.closing refl;
          holds = k.closing_holds;
          agrees = k.closing_watched.watched_agrees;
          alive = k.closing_watched.watched_alive;
          writing = k.closing_writing;
          shut = ground (arith, e, k.closing, k.closing_writing, k.not_shut);
        };
        left_order = refl;
        left_state = refl;
      })

pub shutdown-IsOpen :
    (c : Connection) (w : Bytes)
    → IsOpen c w
    → IsOpen (shutdown true c) w × ((shutdown true c).socket.sent ++ w ≡ c.socket.sent ++ w)
unfolding shutdown
shutdown-IsOpen c w o =
    if_cases (λ d. IsOpen d w × (d.socket.sent ++ w ≡ c.socket.sent ++ w)) (is_connected c.state) _
      c
      (λ e.
        let s =
          shutdown_in_loop-IsHandled (record c { state = disconnecting }) w
            (record {
              closing = refl;
              closing_holds = o.holds;
              closing_watched = record { watched_agrees = o.agrees; watched_alive = o.alive };
              closing_writing = o.writing;
              not_shut = connected-not_shut c w o e;
            }) in
        (s.left_open, s.left_order))
      (λ e. (o, refl))

-- A connection after the last byte has gone out, of which `c` was the state before.
record IsQuiet (c q : Connection) : Type 0 where
  quiet_lives : is_disconnected c.state ≡ false
  quiet_shut : c.socket.write_shut ≡ false
  quiet_state : q.state ≡ c.state
  quiet_socket : q.socket ≡ c.socket
  quiet_holds : Holds q.output_buffer []
  quiet_watched : IsWatched q
  quiet_writing : is_writing q.channel ≡ false

end_write-IsHandled :
    (c q : Connection)
    → IsQuiet c q
    → IsHandled c c.socket.sent [] (if is_disconnecting c.state then shutdown_in_loop q else q)
end_write-IsHandled c q k =
    if_cases (IsHandled c c.socket.sent []) (is_disconnecting c.state) (shutdown_in_loop q) q
      (λ e.
        let s = shutdown_in_loop-IsHandled q [] (record {
          closing = k.quiet_state ∙ is_closing c.state e;
          closing_holds = k.quiet_holds;
          closing_watched = k.quiet_watched;
          closing_writing = k.quiet_writing;
          not_shut = ap (λ s. s.write_shut) k.quiet_socket ∙ k.quiet_shut;
        }) in
        record {
          left_open = s.left_open;
          left_order = s.left_order ∙ append-nil q.socket.sent ∙ ap (λ s. s.sent) k.quiet_socket;
          left_state = s.left_state ∙ k.quiet_state;
        })
      (λ e. record {
        left_open = record {
          lives = ap is_disconnected k.quiet_state ∙ k.quiet_lives;
          holds = k.quiet_holds;
          agrees = k.quiet_watched.watched_agrees;
          alive = k.quiet_watched.watched_alive;
          writing = k.quiet_writing;
          shut = ap (λ s. s.write_shut) k.quiet_socket ∙ k.quiet_shut ∙ rw (k.quiet_state, e) refl;
        };
        left_order = append-nil q.socket.sent ∙ ap (λ s. s.sent) k.quiet_socket;
        left_state = k.quiet_state;
      })
  where
    is_closing : (s : ConnectionState) → is_disconnecting s ≡ true → s ≡ disconnecting
    is_closing disconnected h = absurd (ground (arith, h))
    is_closing connecting h = absurd (ground (arith, h))
    is_closing connected h = absurd (ground (arith, h))
    is_closing disconnecting h = refl

finish_write-IsHandled :
    (c : Connection)
    → is_disconnected c.state ≡ false
    → c.socket.write_shut ≡ false
    → IsWatched c
    → Holds c.output_buffer []
    → IsHandled c c.socket.sent [] (finish_write c)
unfolding finish_write
finish_write-IsHandled c lives unshut w empty =
    let (watched, off) = disable_writing-IsWatched c w in
    if_cases
      (λ q.
        IsHandled c c.socket.sent [] (if is_disconnecting c.state then shutdown_in_loop q else q))
      c.has_write_complete _ _
      (λ e. end_write-IsHandled c _ (record {
        quiet_lives = lives;
        quiet_shut = unshut;
        quiet_state = refl;
        quiet_socket = refl;
        quiet_holds = empty;
        quiet_watched = record {
          watched_agrees = watched.watched_agrees;
          watched_alive = watched.watched_alive;
        };
        quiet_writing = off;
      }))
      (λ e. end_write-IsHandled c (on_channel disable_writing c) (record {
        quiet_lives = lives;
        quiet_shut = unshut;
        quiet_state = refl;
        quiet_socket = refl;
        quiet_holds = empty;
        quiet_watched = watched;
        quiet_writing = off;
      }))

-- The system takes the first bytes of what waits.
module _ (c : Connection) (w : Bytes) (o : IsOpen c w) where
  unchanged : IsHandled c (c.socket.sent ++ w) w c
  unchanged = record { left_open = o; left_order = refl; left_state = refl }

  pub handle_write-none :
      IsHandled c (c.socket.sent ++ w) w (handle_write none c)
      × IsHandled c (c.socket.sent ++ w) w (handle_write (some 0) c)
  unfolding handle_write after_write write_fd
  handle_write-none = (
    if_cases (IsHandled c (c.socket.sent ++ w) w) (is_writing c.channel) c c (λ e. unchanged)
        (λ e. unchanged),
    if_cases (IsHandled c (c.socket.sent ++ w) w) (is_writing c.channel) c c (λ e. unchanged)
        (λ e. unchanged),
  )

  abbrev less : ℕ → Connection
  less n = record (put_out (peek (suc n) c.output_buffer) c) {
    output_buffer = retrieve (suc n) c.output_buffer;
  }

  last-IsHandled :
      (n : ℕ) (v : Bytes)
      → v ≡ []
      → c.socket.write_shut ≡ false
      → Holds (retrieve (suc n) c.output_buffer) v
      → (less n).socket.sent ++ v ≡ c.socket.sent ++ w
      → IsHandled c (c.socket.sent ++ w) v (finish_write (less n))
  last-IsHandled n [] e unshut held order =
      let s =
        finish_write-IsHandled (less n) o.lives unshut
          (record { watched_agrees = o.agrees; watched_alive = o.alive }) held in
      record {
        left_open = s.left_open;
        left_order = s.left_order ∙ sym (append-nil (less n).socket.sent) ∙ order;
        left_state = s.left_state;
      }
  last-IsHandled n (x ∷ v) e unshut held order = absurd cc

  pub handle_write-some :
      (n : ℕ)
      → suc n ≤ length w
      → IsHandled c (c.socket.sent ++ w) (drop (suc n) w) (handle_write (some (suc n)) c)
  unfolding handle_write after_write write_fd
  handle_write-some n le =
      let full : is_empty w ≡ false = length-full w le in
      let unshut : c.socket.write_shut ≡ false = ground (arith, o.shut, full) in
      let held : Holds (retrieve (suc n) c.output_buffer) (drop (suc n) w) =
        retrieve-Holds (suc n) c.output_buffer w o.holds in
      let more : length (drop (suc n) w) ≢ 0 → is_empty (drop (suc n) w) ≡ false =
        not_empty [] (drop (suc n) w) in
      let out : peek (suc n) c.output_buffer ≡ take (suc n) w =
        peek-Holds (suc n) c.output_buffer w o.holds le in
      let order : (c.socket.sent ++ peek (suc n) c.output_buffer) ++ drop (suc n) w
          ≡ c.socket.sent ++ w =
        append_assoc c.socket.sent _ _
        ∙ ap (λ z. c.socket.sent ++ z) (ap (λ z. z ++ drop (suc n) w) out ∙ take-drop (suc n) w) in
      if_cases (IsHandled c (c.socket.sent ++ w) (drop (suc n) w)) (is_writing c.channel) _ c
        (λ e.
          if_cases (IsHandled c (c.socket.sent ++ w) (drop (suc n) w))
            (readable_bytes (retrieve (suc n) c.output_buffer) == 0) _ _
            (λ f.
              last-IsHandled n _ (nil-length _ (ground (arith, f, readable_bytes-Holds _ _ held)))
                unshut held order)
            (λ f. record {
              left_open = record {
                lives = o.lives;
                holds = held;
                agrees = o.agrees;
                alive = o.alive;
                writing = e ∙ rw (more (ground (arith, f, readable_bytes-Holds _ _ held))) refl;
                shut =
                    unshut
                    ∙ rw (more (ground (arith, f, readable_bytes-Holds _ _ held)))
                        (sym (and_false (is_disconnecting c.state)));
              };
              left_order = order;
              left_state = refl;
            }))
        (λ e. absurd (ground (arith, e, o.writing, full)))
