-- ===== src/Metrics.antt =====
-- The metrics registry of sdk/base/worker/metrics.go, which counts jobs and keeps what the state page
-- shows of the workers: Types has its state, Registry the operations, Snapshot what the page gets.
pub mod Types
pub mod Registry
pub mod Counts
pub mod Ledger
pub mod Snapshot
pub mod Summary
mod Examples
