-- ===== src/Tests/Network.antt =====
-- The network library of server/muduo/ at concrete inputs.
use arena_game.Prelude.{
  ℕ, ◌+◌, ◌≤◌, ◌≡◌, ◌≢◌, refl, true, false, List, [], ◌∷◌, ◌++◌, length, arith, nat_eq,
}
use arena_game.Prelude.Map.{lookup}
use arena_game.Prelude.Text.{text}
use arena_game.Wire.Stream.{Bytes}
use arena_game.Net.Channel.{make_channel}
use arena_game.Net.Poller.{Poller}
use arena_game.Net.Poller.Registration.{
  ChannelOperation, enables_reading, enables_writing, disables_all, removes, Watching, IsWatching,
  run_channels, run_channels-IsWatching,
}
use arena_game.Net.Connection.{
  Connection, connected, wrote, broken, make_connection, connect_established, send, shutdown,
}
use arena_game.Net.Connection.Sending.{IsOpen}
use arena_game.Net.Connection.Opening.{IsFree, quiet_callbacks, connect_established-IsOpen}
use arena_game.Net.Connection.Traces.{
  Run, begins, and_send, and_shutdown, accepted, IsReached, run-IsReached, write_rounds,
  write_rounds-shutdown,
}

abbrev no_channels : Poller
no_channels = record { channels = []; watched = []; fatal = false }

no_channels-IsFree : IsFree 7 no_channels
unfolding lookup
no_channels-IsFree = record { unwatched = refl; runs = refl }

abbrev new_channels : Watching
new_channels = record { channels = λ fd. make_channel (100 + fd) fd; poller = no_channels }

new_channels-IsWatching : IsWatching new_channels
unfolding lookup
new_channels-IsWatching = record { alive = refl; own_fd = λ fd. refl; all_agree = λ fd. refl }

abbrev calls : List (ℕ × ChannelOperation)
calls =
    (7, enables_reading)
    ∷ (8, enables_reading)
    ∷ (7, enables_writing)
    ∷ (7, disables_all)
    ∷ (7, removes)
    ∷ []

run_channels-IsWatching_example : IsWatching (run_channels calls new_channels)
run_channels-IsWatching_example = run_channels-IsWatching calls new_channels new_channels-IsWatching

abbrev conn : Connection
conn = connect_established quiet_callbacks (make_connection 107 7 no_channels)

conn-IsOpen : IsOpen conn []
conn-IsOpen = (connect_established-IsOpen 107 7 no_channels no_channels-IsFree).0

not_broken : (n : ℕ) → wrote n ≢ broken
not_broken n e = cc

abbrev hello : Bytes
hello = text "hello"

abbrev half_sent : Connection
half_sent = send true (wrote 2) hello conn

half-Run : Run conn ([] ++ accepted conn hello) half_sent
half-Run = and_send [] conn (wrote 2) hello begins (not_broken 2)

run-IsReached_example : IsReached conn [] ([] ++ accepted conn hello) (shutdown true half_sent)
run-IsReached_example =
    run-IsReached conn [] ([] ++ accepted conn hello) (shutdown true half_sent) conn-IsOpen
      (and_shutdown ([] ++ accepted conn hello) half_sent half-Run)

half-IsReached : IsReached conn [] ([] ++ accepted conn hello) half_sent
half-IsReached = run-IsReached conn [] ([] ++ accepted conn hello) half_sent conn-IsOpen half-Run

half_sent-connected : half_sent.state ≡ connected
unfolding send connect_established make_connection text
half_sent-connected = refl

le_refl : (n : ℕ) → n ≤ n
le_refl n = omega arith

write_rounds-shutdown_example :
    let d : Connection =
      write_rounds (length half-IsReached.waiting) (λ n. 1) (shutdown true half_sent) in
    (d.socket.sent ≡ half_sent.socket.sent ++ half-IsReached.waiting) × (d.socket.write_shut ≡ true)
write_rounds-shutdown_example =
    write_rounds-shutdown half_sent half-IsReached.waiting (length half-IsReached.waiting) (λ n. 1)
      half-IsReached.reached_open half_sent-connected (le_refl (length half-IsReached.waiting))
