-- ===== src/Net/Connection.antt =====
-- server/muduo/TcpConnection.h and TcpConnection.cc: a connection with its two buffers, its channel
-- and its socket. What the system calls return is an argument.
pub mod Sending
pub mod Closing
pub mod Traces
pub mod Opening
use arena_game.Prelude.{
  ℕ, zero, suc, ◌+◌, ◌-◌, ◌*◌, Bool, true, false, not, ◌&&◌, ◌||◌, Option, none, some, List, [],
  ◌∷◌, ◌++◌, ◌==◌, nat_eq, ltb, leb, length, take, drop, if◌then◌else◌,
}
use arena_game.Wire.Stream.{Bytes}
use arena_game.Net.Buffer.{Buffer, readable_bytes, append, retrieve, make_buffer, initial_size}
use arena_game.Net.Buffer.Io.{read_fd, write_fd}
use arena_game.Net.Channel.{Channel, make_channel, is_writing}
use arena_game.Net.Poller.{
  Poller, enable_reading, enable_writing, disable_writing, disable_all, remove_channel,
}

-- `StateE`
pub data ConnectionState : Type 0 where
  disconnected connecting connected disconnecting : ConnectionState

abbrev pub is_connected : ConnectionState → Bool
is_connected disconnected = false
is_connected connecting = false
is_connected connected = true
is_connected disconnecting = false

abbrev pub is_disconnected : ConnectionState → Bool
is_disconnected disconnected = true
is_disconnected connecting = false
is_disconnected connected = false
is_disconnected disconnecting = false

abbrev pub is_disconnecting : ConnectionState → Bool
is_disconnecting disconnected = false
is_disconnecting connecting = false
is_disconnecting connected = false
is_disconnecting disconnecting = true

-- What has gone out through the socket, and whether its writing side was shut.
pub record Socket : Type 0 where
  pub sent : Bytes
  pub write_shut : Bool

-- What is queued in the loop of the connection: a `sendInLoop` or a `shutdownInLoop` from another
-- thread, and the two callbacks on the output buffer.
pub data Task : Type 0 where
  send_task : Bytes → Task
  shutdown_task : Task
  write_complete_task : Task
  high_water_mark_task : ℕ → Task

-- The connection, with the poller and the pending functors of its loop.
pub record Connection : Type 0 where
  pub state : ConnectionState
  pub channel : Channel
  pub poller : Poller
  pub pending : List Task
  pub socket : Socket
  pub input_buffer : Buffer
  pub output_buffer : Buffer
  pub high_water_mark : ℕ
  pub has_write_complete : Bool
  pub has_high_water_mark : Bool

-- The constructor.
unfoldable pub make_connection : ℕ → ℕ → Poller → Connection
unfolding make_buffer
make_connection address fd poller = record {
  state = connecting;
  channel = make_channel address fd;
  poller = poller;
  pending = [];
  socket = record { sent = []; write_shut = false };
  input_buffer = make_buffer initial_size;
  output_buffer = make_buffer initial_size;
  high_water_mark = 64 * 1024 * 1024;
  has_write_complete = false;
  has_high_water_mark = false;
}

-- A call of `channel_` that reaches the poller.
abbrev pub on_channel : (Channel → Poller → Channel × Poller) → Connection → Connection
on_channel f c =
    let (channel, poller) = f c.channel c.poller in record c { channel = channel; poller = poller }

-- `loop_->queueInLoop`
abbrev pub queue_in_loop : Task → Connection → Connection
queue_in_loop task c = record c { pending = c.pending ++ (task ∷ []) }

abbrev pub queue_if : Bool → Task → Connection → Connection
queue_if b task c = if b then queue_in_loop task c else c

abbrev pub put_out : Bytes → Connection → Connection
put_out bytes c = record c { socket = record c.socket { sent = c.socket.sent ++ bytes } }

-- What `::write` returns: a number of bytes, or -1 with `EWOULDBLOCK`, with `EPIPE` or `ECONNRESET`,
-- or with another error.
pub data WriteOutcome : Type 0 where
  wrote : ℕ → WriteOutcome
  would_block broken write_failed : WriteOutcome

-- The end of `sendInLoop`: what is not sent yet waits in the output buffer.
unfoldable pub start_writing : Bytes → Connection → Connection
unfolding append is_writing enable_writing
start_writing rest c =
    let kept = record c { output_buffer = append rest c.output_buffer } in
    if is_writing c.channel then kept else on_channel enable_writing kept

abbrev pub passes_mark : ℕ → Connection → Bool
unfolding readable_bytes
passes_mark more c =
    leb c.high_water_mark (readable_bytes c.output_buffer + more)
    && ltb (readable_bytes c.output_buffer) c.high_water_mark
    && c.has_high_water_mark

unfoldable pub keep_rest : Bytes → Connection → Connection
unfolding readable_bytes start_writing
keep_rest rest c =
    if length rest == 0
    then c
    else start_writing rest (
        queue_if (passes_mark (length rest) c)
          (high_water_mark_task (readable_bytes c.output_buffer + length rest)) c)

-- What `sendInLoop` does with the outcome of its `::write`.
unfoldable pub send_outcome : WriteOutcome → Bytes → Connection → Connection
unfolding keep_rest
send_outcome (wrote n) bytes c = keep_rest (drop n bytes) (
    queue_if (length bytes - n == 0 && c.has_write_complete) write_complete_task
      (put_out (take n bytes) c))
send_outcome would_block bytes c = keep_rest bytes c
send_outcome broken bytes c = c
send_outcome write_failed bytes c = keep_rest bytes c

unfoldable pub send_in_loop : WriteOutcome → Bytes → Connection → Connection
unfolding readable_bytes is_writing send_outcome keep_rest
send_in_loop outcome bytes c =
    if is_disconnected c.state
    then c
    else (if not (is_writing c.channel) && readable_bytes c.output_buffer == 0
        then send_outcome outcome bytes c
        else keep_rest bytes c)

unfoldable pub shutdown_in_loop : Connection → Connection
shutdown_in_loop c =
    if not (is_writing c.channel)
    then record c { socket = record c.socket { write_shut = true } }
    else c

-- `send` and `shutdown`, from the thread of the loop or from another.
unfoldable pub send : Bool → WriteOutcome → Bytes → Connection → Connection
unfolding send_in_loop
send in_loop outcome bytes c =
    if is_connected c.state
    then (if in_loop then send_in_loop outcome bytes c else queue_in_loop (send_task bytes) c)
    else c

unfoldable pub shutdown : Bool → Connection → Connection
unfolding shutdown_in_loop
shutdown in_loop c =
    if is_connected c.state
    then (if in_loop
        then shutdown_in_loop (record c { state = disconnecting })
        else queue_in_loop shutdown_task (record c { state = disconnecting }))
    else c

-- The end of `handleWrite`, where the output buffer is empty.
unfoldable pub finish_write : Connection → Connection
unfolding disable_writing shutdown_in_loop
finish_write c =
    let quiet = queue_if c.has_write_complete write_complete_task (on_channel disable_writing c) in
    if is_disconnecting c.state then shutdown_in_loop quiet else quiet

-- The system takes the first `n` readable bytes.
unfoldable pub after_write : Bytes × Option ℕ → Connection → Connection
unfolding finish_write retrieve
after_write (bytes, none) c = c
after_write (bytes, some zero) c = c
after_write (bytes, some (suc n)) c =
    let less = record (put_out bytes c) { output_buffer = retrieve (suc n) c.output_buffer } in
    if readable_bytes less.output_buffer == 0 then finish_write less else less

unfoldable pub handle_write : Option ℕ → Connection → Connection
unfolding after_write write_fd
handle_write outcome c =
    if is_writing c.channel then after_write (write_fd outcome c.output_buffer) c else c

-- The callbacks of the server that change the connection.
pub record ServerCallbacks : Type 0 where
  pub connection : Connection → Connection
  pub message : Connection → Connection
  pub close : Connection → Connection
  pub write_complete : Connection → Connection
  pub reaches_high_water_mark : ℕ → Connection → Connection

unfoldable pub connect_established : ServerCallbacks → Connection → Connection
unfolding enable_reading
connect_established cb c =
    cb.connection (on_channel enable_reading (record c { state = connected }))

unfoldable pub connect_destroyed : ServerCallbacks → Connection → Connection
unfolding disable_all remove_channel
connect_destroyed cb c = on_channel remove_channel (
    if is_connected c.state
    then cb.connection (on_channel disable_all (record c { state = disconnected }))
    else c)

unfoldable pub handle_close : ServerCallbacks → Connection → Connection
unfolding disable_all
handle_close cb c =
    cb.close (cb.connection (on_channel disable_all (record c { state = disconnected })))

abbrev pub after_read : ServerCallbacks → Option ℕ → Connection → Connection
after_read cb none c = c
after_read cb (some zero) c = handle_close cb c
after_read cb (some (suc n)) c = cb.message c

-- `none` is an error of `readFd`, which `handleError` only logs; no bytes are the end of the stream.
unfoldable pub handle_read : ServerCallbacks → Option Bytes → Connection → Connection
unfolding read_fd
handle_read cb arrived c =
    let (buffer, n) = read_fd arrived c.input_buffer in
    after_read cb n (record c { input_buffer = buffer })

-- What a pending functor does.
unfoldable pub run_task : ServerCallbacks → WriteOutcome → Task → Connection → Connection
unfolding send_in_loop shutdown_in_loop
run_task cb outcome (send_task bytes) c = send_in_loop outcome bytes c
run_task cb outcome shutdown_task c = shutdown_in_loop c
run_task cb outcome write_complete_task c = cb.write_complete c
run_task cb outcome (high_water_mark_task size) c = cb.reaches_high_water_mark size c

abbrev run_tasks : ServerCallbacks → (ℕ → WriteOutcome) → List Task → Connection → Connection
run_tasks cb outcomes [] c = c
run_tasks cb outcomes (task ∷ tasks) c =
    run_tasks cb (λ n. outcomes (suc n)) tasks (run_task cb (outcomes 0) task c)

-- `doPendingFunctors`: those that are there when it starts.
unfoldable pub do_pending : ServerCallbacks → (ℕ → WriteOutcome) → Connection → Connection
unfolding run_task
do_pending cb outcomes c = run_tasks cb outcomes c.pending (record c { pending = [] })
