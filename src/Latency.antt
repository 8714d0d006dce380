-- ===== src/Latency.antt =====
-- latency/src/bin: the ping and pong programs.
pub mod Report
pub mod Payload
pub mod Parallel
pub mod Sequential
pub mod Programs
pub mod RouterPrograms
pub mod SessionPrograms
pub mod Progress
pub mod TPing
pub mod RPing
pub mod Session
pub mod ZPing
pub mod Delay
pub mod Columns
pub mod Pong
