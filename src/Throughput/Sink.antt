-- ===== src/Throughput/Sink.antt =====
-- The sinks, which accept one transport by hand and count the bytes that arrive.
pub mod Tcp
pub mod Udp
