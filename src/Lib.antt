-- ===== src/Lib.antt =====
-- The meta-agent control plane: its core, modelled and proved correct.
--
-- The program is a daemon to which agents report events over HTTP, WebSocket, TCP and UDP. An event
-- envelope is validated, stored in bounded in-memory projections (agents, goals, tasks, lessons,
-- recent events), and announced to subscribers with a revision. The retained events are read in pages
-- by the timeline, which works on a snapshot of the store. Beside the store, the runtime monitor takes
-- hooks that agents send about themselves, samples their processes, and queues control commands for
-- them. From a snapshot of the store, the metacognition diagnoses the tasks and their dependencies, the
-- planner makes a plan of assignments, interventions and holds, and the explorer shows the sessions and
-- the latest events. The parts and their files:
--
-- * Model.antt and Model/ are src/model.rs. Model/Payload has the payloads, the envelope and the
--   transport frames; Model/Validation has `validate` and each check that it calls, field by field,
--   in the source's order; Model/Spec says which envelopes the protocol admits without running a
--   check; Model/Numbers has u64 arithmetic (saturating and wrapping, written out) and an f32 as its
--   IEEE 754 bits. A text is a native string, whose length is in bytes of UTF-8, as in the source.
--   A Uuid and a DateTime are numbers: the program only compares them.
-- * Config.antt is src/config.rs: the settings, `Config::validate` and `cache_config`.
-- * Lru.antt is the third-party crate `lru`: a record of the operations that the store calls, with
--   laws that state the documented behaviour in terms of the order of recency. Lru/Sample has a
--   recency list that satisfies them, on which the definitions run.
-- * Store.antt and Store/ are src/store.rs. Store/State has the data; Store/Tasks has the helpers
--   (`push_with_eviction`, `insert_task`, `ensure_task`, `ensure_agent`, the completion counters);
--   Store/Writes has what each event kind writes into an agent and a task; Store/Reducer has
--   `apply_event`; Store/New has `Store::new`, with the calls of
--   tokio and `lru` that may panic as a parameter; Store/Ingest has `ingest`, `record_rejection` and
--   the read models.
--   A call holds the write lock from its first read to its last write, so it is one step, and
--   Store/Run has the sequences of such steps, in the order in which they take the lock.
-- * Auth.antt is src/auth.rs; the comparison of the crate `subtle` is a record with its law.
-- * Udp.antt is src/udp.rs: one round of the listener's loop, which calls Auth and the store, and
--   the loop over the datagrams that it receives. The parser of serde_json is a parameter.
-- * Tcp.antt is `handle_connection` of src/tcp.rs, for a connection that has the store to itself.
-- * Runtime.antt and Runtime/ are src/runtime/model.rs and src/runtime/monitor.rs. Runtime/Data has the
--   data, Runtime/Validation the checks, Runtime/Monitor the state and the calls for hooks and
--   commands, Runtime/Sampling what a sample of the processes does, Runtime/Rows and Runtime/Snapshot
--   what a snapshot shows, and Runtime/Run the sequences of calls, each of which holds the lock on the
--   state. An f64 is its bits, and its arithmetic a record.
--   A hash map is a list of entries in the order of their first insertion; no theorem depends on it.
-- * Timeline.antt and Timeline/ are src/timeline.rs. Timeline/Hex has the hexadecimal fields,
--   Timeline/Order the order of the events, Timeline/Build the page; what the crates chrono and uuid do
--   with a time and an id is a record with laws. Timeline/Query is src/timeline_api.rs.
-- * Metacognition.antt and Metacognition/ are src/metacognition/: Metacognition/Data has the data
--   of types.rs, Metacognition/Outside the policy, the ages and the means, Metacognition/Lookup the
--   dependencies of one task, Metacognition/Cycles the search for dependency cycles and
--   Metacognition/Depth the remaining depths and the critical paths, all of graph.rs;
--   Metacognition/Facts and Metacognition/Findings have the rules, Metacognition/Events the events
--   of each task and Metacognition/Analysis the analysis, of analysis.rs. The operations of f32, the
--   seconds between two times and the texts of numbers are a record. A BTreeMap is a list of entries
--   with one per key, sorted where the source goes through it; a BTreeSet a list of which only the
--   members count.
-- * Coordination.antt and Coordination/ are src/coordination.rs. Coordination/Data has the data, the
--   policy and the orders, Coordination/Tasks what is made of one task, Coordination/Select the
--   selection of assignments, Coordination/Plan the plan made from an analysis, and
--   Coordination/Build the plan of a snapshot, which calls Metacognition.
-- * Explorer.antt and Explorer/ are src/explorer.rs: Explorer/Data has the data and the policy,
--   Explorer/Build the sessions and the view of a snapshot.
--
-- A loop over a list is structural recursion. The searches of the dependency graph are on fuel: a
-- call that goes deeper marks one more task, so that one more than the tasks is enough. The rounds
-- of the selection are on fuel too: each round that goes on serves a candidate, so that one more
-- than the candidates is enough. The walk of a reader over the pages of the timeline is bounded by a
-- number of pages, and any number above the count of retained events is enough. The digits of a pid
-- are bounded by the ten of a u32. The counters are u64 and saturate; the sums of a snapshot wrap,
-- as in the release build. The count of retained tasks is at most the capacity of the task cache, a
-- usize, so a task counter does not reach the bound.
--
-- Not modelled: the accept loop of src/tcp.rs, the routes (src/http.rs, src/runtime_api.rs and the other
-- src/*_api.rs but timeline_api.rs), the collector of the runtime monitor, the client and the provider
-- adapter, the web pages, the entry points, the wording of error messages, JSON, and the scripts around
-- the daemon.
pub mod Prelude
pub mod Model
pub mod Lru
pub mod Store
pub mod Config
pub mod Auth
pub mod Udp
pub mod Tcp
pub mod Runtime
pub mod Timeline
pub mod Metacognition
pub mod Coordination
pub mod Explorer
