-- ===== src/Lib.antt =====
-- axterminator drives macOS applications for an agent: a server speaks JSON-RPC (MCP) on standard input,
-- routes each request through its phases and security gates to a tool, and the tools keep workflow
-- plans, durable step runs, recordings and references to elements. This library models the parts whose
-- behaviour is their own logic, and takes what acts on the desktop, and other libraries, as parameters.
--
-- Files, from the root of the repository:
-- * Durable (src/durable_steps.rs): `DurableRunner` with `run`, `execute_with_retry`, checkpoints and
--   resume. The executor, the clock and the hasher are the record `Backend`. Retry, Run and Checkpoints
--   hold the theorems, Passes tells what an executor's outcomes make of a run, Mock the scripted `MockExecutor`. `run` is recursion on the steps that are
--   left, which is `steps[current_step..]`; retries recurse on the number of attempts left.
-- * Refs (src/persistent_refs.rs): `RefStore` with `track`, `refresh`, `gc` and the lookups, over two
--   association lists with one entry for a key. Valid holds the invariant of the store.
-- * Recording (src/recording.rs): `WorkflowRecorder` and `WorkflowPlayer`, which resolves elements
--   against a `RefStore`. Recorder, Resolve and Replay hold the theorems. The floating-point numbers
--   are the record `Floats`.
-- * Security (src/mcp/security.rs): modes, app policy, rate limiter, audit record and the calendar of
--   its time stamps. Clock readings are arguments, in nanoseconds. Modes, Rate, Calendar.
-- * Workflow (src/mcp/tools_innovation/workflow.rs, `WorkflowState` of src/mcp/server.rs and the
--   progress notifications of src/mcp/progress.rs): Parse reads the steps from JSON, and the three
--   tools create, advance and show plans. Read, Advance, Store and Session hold the theorems; Session
--   has the step relation of a session.
-- * Tasks (src/mcp/server.rs, src/mcp/server_handlers.rs): tool calls on threads of their own, polled
--   and cancelled. Life has the step relation, Effects what a step does
--   to the entries, Session the theorems.
-- * Server (src/mcp/server_handlers.rs): `dispatch_tool` with its gates, which calls Security; and Route
--   (src/mcp/server.rs, src/mcp/protocol.rs), the classes of requests and the phases of a session. Calls
--   is `handle_tools_call`, with the thread of a task.
-- * Blackbox (src/blackbox.rs): the steps of a test case against the record `System`; Cases runs them
--   and checks the assertions. Trace is what a test case asks of the system, told without the code,
--   Counted what one step or assertion does to the result, Run that a run ends and what it counts.
-- * Instructions (src/instruction_sources.rs): which source of an instruction or of a fact is followed.
--   Authority is the order of the sources, Maximum the search for the first choice, Facts the choice.
-- * Http (src/mcp/auth.rs, the module `http` of src/mcp/transport.rs, and the status codes of
--   src/mcp/protocol.rs): Auth is the check of the sender, with its comparison of bytes; Post is
--   `post_mcp`, which calls Route of Server, and Post/Guards what has been checked before it does. A
--   call that panics is an outcome of its own. The HTTP library is the record `HttpLib`, the handlers
--   behind the routing are the record `Handlers`.
-- * Watch (src/watch/ring_buffer.rs): the bounded event log.
-- * Healing (src/healing_match.rs): `levenshtein_distance`, whose matrix is a function of two indices,
--   against the relation `Edits`, and `fuzzy_match`, whose comparison of floating-point numbers is
--   the record `Similarity`.
-- * Upgrade (src/upgrade.rs): Version and Decimal print and parse versions; `check_upgrade` acts on a
--   disk that holds the stamp, Verdict says when it comes to which outcome, and Stamp what it leaves there.
--   A write that fails leaves any content of the stamp, as the disk determines.
-- * CrossApp (src/cross_app.rs): the tracker of the app in the foreground; Detect is the mining of its
--   log, Counts, Windows and Frequent what is found, Tracks and Chain the state of the tracker.
-- * Copilot (src/copilot_state.rs): the difference of two snapshots, field by field, and the loop of
--   `watch_state_changes` over the snapshots that it reads.
-- * Json is the interface to serde_json values; Prelude holds lists, options, maps, texts and tests.
--
-- Numbers are natural numbers; `u32` and `u64` arithmetic is written with its modulus where it can
-- wrap, and `usize` counters of items in memory are not reduced. Every loop of the modelled code is a
-- recursion on a list or on a count, but for two. The printing of a decimal has as fuel one more than the
-- number, which has fewer digits than that. The loop that waits for an element has as fuel the number
-- of its sleeps of 50 ms that fit into the time-out, and two. Texts are compared as native strings, and are lists of
-- code points where the code walks them; a `HashMap` is an association list, whose order stands for
-- the iteration order.
--
-- Not modelled: the accessibility, audio, camera and capture bindings, which are foreign calls; the
-- printing of JSON replies; the parser of the policy file; the generation of tokens and the event
-- stream of the HTTP transport; the statistics of the tracker; healing and intent matching, whose
-- scores are floating-point numbers.
pub mod Prelude
pub mod Json
pub mod Durable
pub mod Refs
pub mod Recording
pub mod Security
pub mod Workflow
pub mod Watch
pub mod Tasks
pub mod Server
pub mod Healing
pub mod Http
pub mod CrossApp
pub mod Copilot
pub mod Instructions
pub mod Blackbox
pub mod Upgrade
