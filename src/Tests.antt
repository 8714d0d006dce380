-- ===== src/Tests.antt =====
-- Runs of the models at concrete inputs, and the theorems at inputs that meet their hypotheses.
mod Parallel
mod Sequential
mod Startup
mod Stopping
mod Programs
mod LatencyMains
mod TransportMains
mod QueryMains
mod QueryPrograms
mod Measured
mod Rate
mod Delay
mod Peers
mod Queries
mod Codec
mod Wire
mod Overhead
mod Throughput
