-- ===== src/Wire.antt =====
-- common/: the frame format, the binary stream and the messages of client and server.
pub mod Protocol
pub mod Stream
pub mod Messages
