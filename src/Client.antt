-- ===== src/Client.antt =====
-- client/ArenaClient/: the client of the game.
pub mod Network
pub mod Scenes
pub mod Window
pub mod Login
pub mod Startup
