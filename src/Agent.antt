-- ===== src/Agent.antt =====
-- The worker agent of sdk/base/agent/workerproxy: State has state.go, Probe what run.go does when the
-- backend is probed, Drain how draining starts, stops and ends.
pub mod State
pub mod Probe
pub mod Drain
pub mod Draining
pub mod Concurrency
pub mod Reopened
pub mod Reconnect
pub mod Backoff
mod Examples
