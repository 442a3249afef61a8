-- ===== src/Lib.antt =====
-- nfrx: a relay server that hands jobs, requests and transfers to workers behind it. This library
-- models parts of its Go code as pure functions on explicit state and proves what they keep.
--
-- Conventions. A section of code under a lock is one function from the state to the new state and
-- what is returned; a handler is the composition of its sections. What may run between two sections
-- is a step relation, and a theorem over `Reach` speaks of every interleaving of the sections.
-- Readings of the clock, the ids that uuid.NewString returns, decoded bodies and the results of
-- library calls are arguments. Times are nanoseconds as natural numbers, with 0 for Go's zero time;
-- durations that may be negative are integers. Counters of type uint64 wrap. A Go map is an
-- association list; `range` visits it in list order. Sums and products of `int` and of durations are
-- taken without overflow.
--
-- Files:
--   Prelude and its children: tests, lists, integers, maps, and what is used of the package strings.
--   Transfer (server/internal/transfer/transfer.go): the channel registry; its functions keep the
--     names of the code in snake case. Steps has the interleavings, Roles the attachments, Expiry the
--     ways to end.
--   Jobs (server/internal/jobs/registry.go): Types has the data, Status setJobStatusLocked, Events the
--     subscriptions and views, Queue claimNext and removeFromQueue, Workers the worker activity,
--     Timers the client timers, Handlers, Transfers and Claims the HTTP handlers, Watch the streams of
--     HandleJobEvents, Snapshot the state of the registry. Fifo, Exact, Steps, Terminal, Revival,
--     Latest and Summary have the proofs.
--   Partition (sdk/base/worker/partition.go, modules/llm/ext/openai/partition.go): the tasks cut for
--     several workers (Tiles, Starved), the loop of one worker (Batches; one unit of fuel for each
--     round, and a round takes at least one input), how answers are put together (Assembly), in
--     whatever order they come (Collect), and the exchange with one worker (Once). Pool has the
--     goroutines that share the workers, one turn at a time; Turns has every order of the turns, Owners
--     what they keep, Bounded, Wakeful, Progress and Stranded how they end.
--   Alias (sdk/api/control/alias.go): AliasKey, with Stable for its proof.
--   Workers (sdk/base/worker/scheduler.go, and scorer.go of the modules): PickWorker, with Scan for its
--     first loop and Pick for its choice. Workers.Registry (sdk/base/worker/registry.go and ws.go): the
--     registry on a heap of shared workers, with channels as numbers; Counts, Held, Closing and
--     JobChannels follow the channels, Steps has the interleavings, Stale a worker that registers
--     twice, LateSends the sends behind a lock.
--   Bridge (modules/mcp/agent/internal/mcpbridge: idmap.go, bridge.go): the ids and the waiting calls of
--     a session; Ids and Calls have the proofs.
--   ToolRelay (modules/mcp/agent/internal/mcp/relay.go): the frames and the calls of a RelayClient;
--     Provider has its requests and Sse the event streams; Active, Cancels and Tokens have proofs.
--   Completions (modules/llm/ext/openai/queue.go): CompletionQueue; Order has its order of dispatch.
--   Generation (modules/llm/ext/openai/generation_proxy.go): Waiting has the way into
--     the queue of Completions and the loop in which a request waits, section by section, since the
--     sections of other handlers and of the registry of Workers come in between; Queueing and Arrivals
--     have the proofs, with the handlers of all requests side by side.
--     Relay has the loop that hands the answer of the worker to the client, a run of the events that its
--     select meets; Answers, Reports and Transparent have its proofs. Stream and Usage read the token
--     counts; the loop over lines has one unit of fuel for each character, and a line takes at least
--     one (Cut, Lines).
--   Models (modules/llm/ext/adapters/worker_spi.go, modules/llm/ext/openai/models.go): the models that
--     the workers offer; Names and Agreement have the proofs.
--   Secret (core/secret/mask.go): how a secret is shown; Masked has the proof.
--   Metrics (sdk/base/worker/metrics.go): Types, Registry and Snapshot have the code; Counts and Ledger
--     follow the jobs, Summary the snapshot.
--   Agent (sdk/base/agent/workerproxy, agent/drain/state.go, agent/reconnect.go, core/reconnect): State,
--     Probe, Drain and Reconnect have the code; Draining shows how a drain ends, Concurrency and
--     Reopened what it does to the concurrency that is advertised, Backoff the delays.
--   Inflight (sdk/base/inflight/inflight.go): Counter; Zero has its channels in every order of calls.
--   Auth (sdk/base/auth/auth.go, bearer_roles_middleware.go, and the copies in sdk/base/worker/ws.go and
--     sdk/base/tunnel/registry.go): who is let in, with Access for the proofs.
--   ServerState (server/internal/serverstate: state.go, registry.go): the status, the drain flag and the
--     elements of the plugins; Drain shows when a drain lasts.
--   Tunnel (sdk/base/tunnel/registry.go): who connects (Connect), the calls of a relay (Calls, with
--     Sessions for the count of sessions), and a request from its body to its answer (Handler, with
--     Served for its proofs).
--
-- Not modelled: the encoding of JSON, HTTP headers and flushing, logging, the HTML pages, the
-- configuration files and command lines, the sockets and servers of the agents, the endpoints
-- that forward HTTP bodies, the protocol of the tool servers and the sockets, the metrics of
-- Prometheus, and the wiring of the server.
pub mod Prelude
pub mod Agent
pub mod Alias
pub mod Auth
pub mod Bridge
pub mod Completions
pub mod Generation
pub mod Inflight
pub mod Jobs
pub mod Metrics
pub mod Models
pub mod Partition
pub mod Secret
pub mod ServerState
pub mod ToolRelay
pub mod Transfer
pub mod Tunnel
pub mod Workers
