-- ===== src/Amqp.antt =====
-- plugins/transport/amqp1/main.go: the transport of AMQP 1.0.
pub mod Receiver
pub mod Heard
pub mod Tests
