-- ===== src/Jobs.antt =====
-- server/internal/jobs/registry.go: the job queue behind the client and the worker API.
pub mod Types
pub mod Status
pub mod Events
pub mod Queue
pub mod Workers
pub mod Timers
pub mod Watch
pub mod Snapshot
pub mod Latest
pub mod Summary
pub mod Handlers
pub mod Transfers
pub mod Claims
pub mod Fifo
pub mod Exact
pub mod Steps
pub mod Terminal
pub mod Revival
mod Examples
