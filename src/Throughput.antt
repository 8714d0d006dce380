-- ===== src/Throughput.antt =====
-- throughput/src/bin: programs that count messages.
pub mod Counter
pub mod Subscriber
pub mod Callbacks
pub mod Publisher
pub mod Session
pub mod Rate
pub mod Monitor
pub mod Pipeline
pub mod Programs
pub mod TransportPrograms
pub mod SessionPrograms
pub mod RouterPrograms
pub mod Router
pub mod Sink
