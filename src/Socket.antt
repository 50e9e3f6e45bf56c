-- ===== src/Socket.antt =====
-- plugins/transport/socket/main.go: the socket transport.
pub mod Frame
pub mod Stream
pub mod Deliver
pub mod Receive
pub mod Chunks
pub mod Buffer
pub mod Safety
pub mod Setup
pub mod Tests
