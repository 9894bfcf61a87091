-- ===== src/Game.antt =====
-- server/game/: the services behind the game server.
pub mod Room
pub mod Session
pub mod Battle
pub mod Account
pub mod MatchQueue
pub mod Matchmaking
