-- ===== src/Server/Invariant.antt =====
-- What holds of the services of server/game/GameServer.cc after every event.
pub mod Parts
pub mod Requests
pub mod Messages
pub mod Events
use arena_game.Prelude.{ℕ, ◌+◌, ◌≡◌, ◌<◌, ◌^◌}
use arena_game.Game.Room.Invariant as Rooms
use arena_game.Game.Session.Invariant as Sessions
use arena_game.Game.Battle.Invariant as Battles
use arena_game.Game.MatchQueue.Invariant as Queue
use arena_game.Server.State.{GameServer}

-- Each service is in order: logins and rooms, the queue with its indexes, and the battles.
pub record IsValid (s : GameServer) : Type 0 where
  pub sessions_valid : Sessions.IsValid s.sessions
  pub rooms_valid : Rooms.IsValid s.rooms
  pub queue_valid : Queue.IsValid s.match_queue
  pub battles_valid : Battles.IsValid s.battles
