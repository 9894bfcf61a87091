-- ===== src/Net/Connection/Opening.antt =====
-- A new connection of server/muduo/TcpConnection.cc, and the start and the end of its life.
use arena_game.Prelude.{ℕ, ◌≡◌, refl, ap, subst, ◌∙◌, nat_eq, true, false, none, []}
use arena_game.Prelude.Map.{lookup}
use arena_game.Wire.Stream.{Bytes}
use arena_game.Net.Buffer.{initial_size}
use arena_game.Net.Buffer.Contents.{make_buffer-Holds}
use arena_game.Net.Channel.{fresh, make_channel, with_reading, is_writing}
use arena_game.Net.Poller.{Poller, enable_reading, disable_all, remove_channel}
use arena_game.Net.Poller.Registration.{
  run_channel-IsUpdated, enables_reading, disables_all, removes, events-update_channel,
}
use arena_game.Net.Connection.{
  Connection, connected, disconnected, make_connection, ServerCallbacks, connect_established,
  connect_destroyed, handle_close,
}
use arena_game.Net.Connection.Sending.{IsOpen}

-- The poller does not know the descriptor of a new connection.
pub record IsFree (fd : ℕ) (p : Poller) : Type 0 where
  pub unwatched : lookup fd p.watched ≡ none
  pub runs : p.fatal ≡ false

-- Callbacks that leave the connection as it is.
abbrev pub quiet_callbacks : ServerCallbacks
quiet_callbacks = record {
  connection = λ c. c;
  message = λ c. c;
  close = λ c. c;
  write_complete = λ c. c;
  reaches_high_water_mark = λ n c. c;
}

pub connect_established-IsOpen :
    (address fd : ℕ) (p : Poller)
    → IsFree fd p
    → IsOpen (connect_established quiet_callbacks (make_connection address fd p)) []
      × ((connect_established quiet_callbacks (make_connection address fd p)).state ≡ connected)
unfolding connect_established make_connection enable_reading is_writing
connect_established-IsOpen address fd p free =
    let u = run_channel-IsUpdated enables_reading (make_channel address fd) p free.unwatched in
    (
      record {
        lives = refl;
        holds = make_buffer-Holds initial_size;
        agrees = u.agrees;
        alive = u.runs ∙ free.runs;
        writing =
            ap (λ e. e.writes)
              (events-update_channel fresh (with_reading true (make_channel address fd)) p);
        shut = refl;
      },
      refl,
    )

-- A connection that has closed and is destroyed is disconnected, sends nothing more, and its
-- descriptor is free in the poller.
pub handle_close-IsFree :
    (c : Connection) (w : Bytes)
    → IsOpen c w
    → let d : Connection = connect_destroyed quiet_callbacks (handle_close quiet_callbacks c) in
      IsFree c.channel.fd d.poller × (d.state ≡ disconnected) × (d.socket ≡ c.socket)
unfolding handle_close connect_destroyed remove_channel disable_all
handle_close-IsFree c w o =
    let u = run_channel-IsUpdated disables_all c.channel c.poller o.agrees in
    let closed : Connection = handle_close quiet_callbacks c in
    let v = run_channel-IsUpdated removes closed.channel closed.poller u.agrees in
    (
      record {
        unwatched =
            subst (λ fd. lookup fd (remove_channel closed.channel closed.poller).1.watched ≡ none)
              u.same_fd v.agrees;
        runs = v.runs ∙ u.runs ∙ o.alive;
      },
      refl,
      refl,
    )
