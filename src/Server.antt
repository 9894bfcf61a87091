-- ===== src/Server.antt =====
-- server/game/GameServer.cc: the handlers over the services.
pub mod Invariant
pub mod State
pub mod Login
pub mod Queueing
pub mod Heroes
pub mod Fighting
pub mod Lifecycle
pub mod Frames
