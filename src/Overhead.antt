-- ===== src/Overhead.antt =====
-- overhead/src/bin: the analysis of a capture, and the program whose traffic is captured.
pub mod Capture
pub mod Analyze
pub mod Sender
pub mod Measured
