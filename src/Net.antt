-- ===== src/Net.antt =====
-- server/muduo/: the network library under the server.
pub mod Buffer
pub mod Channel
pub mod Poller
pub mod Connection
pub mod Timers
