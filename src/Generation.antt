-- ===== src/Generation.antt =====
-- generation_proxy.go of modules/llm/ext/openai: Usage has what is read of the answers, Stream the
-- lines of an event stream, Relay the loop that hands the worker's answer to the client, Waiting the
-- queue in which a request waits for a worker.
pub mod Usage
pub mod Stream
pub mod Cut
pub mod Lines
pub mod Relay
pub mod Answers
pub mod Reports
pub mod Transparent
pub mod Waiting
pub mod Queueing
pub mod Arrivals
mod Examples
