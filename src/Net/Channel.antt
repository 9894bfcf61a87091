-- ===== src/Net/Channel.antt =====
-- server/muduo/Channel.h and Channel.cc: what a file descriptor is watched for, and the callbacks of
-- what has happened to it.
use arena_game.Prelude.{ℕ, Bool, false, not, ◌&&◌, ◌||◌, if◌then◌else◌}

-- `events_`, which is made of `kReadEvent` and `kWriteEvent`: whether each is in it.
pub record Interest : Type 0 where
  pub reads : Bool
  pub writes : Bool

abbrev pub no_event : Interest
no_event = record { reads = false; writes = false }

-- `revents_`, by the bits that are looked at.
pub record Ready : Type 0 where
  pub hang_up : Bool
  pub error : Bool
  pub input : Bool
  pub priority : Bool
  pub output : Bool

-- `index_`, with the values that server/muduo/EPollPoller.cc gives it.
pub data Index : Type 0 where
  fresh added deleted : Index

-- A channel, with its address in memory.
pub record Channel : Type 0 where
  pub address : ℕ
  pub fd : ℕ
  pub events : Interest
  pub revents : Ready
  pub index : Index

abbrev pub nothing_ready : Ready
nothing_ready = record {
  hang_up = false;
  error = false;
  input = false;
  priority = false;
  output = false;
}

-- The constructor.
abbrev pub make_channel : ℕ → ℕ → Channel
make_channel address fd = record {
  address = address;
  fd = fd;
  events = no_event;
  revents = nothing_ready;
  index = fresh;
}

unfoldable pub is_none_event : Channel → Bool
is_none_event ch = not (ch.events.reads || ch.events.writes)

unfoldable pub is_writing : Channel → Bool
is_writing ch = ch.events.writes

unfoldable pub is_reading : Channel → Bool
is_reading ch = ch.events.reads

-- The changes of `events_`, before `update`.
abbrev pub with_reading : Bool → Channel → Channel
with_reading b ch = record ch { events = record ch.events { reads = b } }

abbrev pub with_writing : Bool → Channel → Channel
with_writing b ch = record ch { events = record ch.events { writes = b } }

abbrev pub with_nothing : Channel → Channel
with_nothing ch = record ch { events = no_event }

-- The four callbacks, on a state that they change.
pub record Callbacks (S : Type 0) : Type 0 where
  pub close : S → S
  pub error : S → S
  pub read : S → S
  pub write : S → S

abbrev call_if : {S : Type 0} → Bool → (S → S) → S → S
call_if b f s = if b then f s else s

-- The callbacks are set, as `TcpConnection` sets all four.
unfoldable pub handle_event_with_guard : {S : Type 0} → Callbacks S → Ready → S → S
handle_event_with_guard cb r s =
    let closed = call_if (r.hang_up && not r.input) cb.close s in
    let failed = call_if r.error cb.error closed in
    let received = call_if (r.input || r.priority) cb.read failed in
    call_if r.output cb.write received

-- A channel that is tied to an owner which is gone is left alone.
unfoldable pub handle_event : {S : Type 0} → Bool → Bool → Callbacks S → Ready → S → S
unfolding handle_event_with_guard
handle_event tied alive cb r s = if tied && not alive then s else handle_event_with_guard cb r s
