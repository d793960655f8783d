-- ===== src/Lib.antt =====
-- The core of the code audit engine, modelled and proved. The engine takes a project, scans it with
-- static analysers and with AI agents, and reports the fused findings.
--
-- The parts and the files that model them:
-- * engine/libs/common-go/verdict/verdict.go, Verdict: the two axes of a verdict, and the buckets of a
--   report, which the services share.
-- * engine/services/task-service/internal/statemachine/statemachine.go, Task/StateMachine: the table of
--   allowed transitions of a task, built as `registerTransitions` builds it. Task/StateMachine/Edges has
--   the diagram as a relation, Reach the histories of a task.
-- * engine/services/task-service/internal/reconciler/reconciler.go, Task/Reconciler: the pass over the
--   running tasks that times out the stale ones. The store is the interface `TaskStore`; Service is
--   the task service's, of service/task_service.go. Lifecycle has the calls of `Start` and `Stop`.
-- * engine/services/sast-adapter-service/internal/fusion, Fusion: the pipeline of five stages, each a
--   function from context to context over a heap of findings, because the lists of the pipeline share
--   pointers: Filter, Merge, Dedup, Conflict, Confidence; Pipeline composes them as `Execute` does, with
--   the deadline, the recovery from a panic, and the fallback. float32 is the interface Fusion/Float.
-- * engine/services/runtime-service/internal/sandbox/graph_events.go and graph_state.go, Graph: the state
--   of a graph task is the fold of its log. Event has the envelopes, State the table of nodes and its
--   readers, Apply the fold of one event, Replay the rebuilding from a log. The services that run the
--   nodes and the log's files are outside the model.
-- * engine/services/runtime-service/internal/service/verify_dedup.go, Segments: findings at one segment of
--   a file share one round in the sandbox, and its verdict goes back to each of them.
-- * engine/services/runtime-service/internal/session/session.go, Session: the sessions of the runtime, as a
--   table of pointers and a heap; the janitor's tick; the access check of the sandbox.
-- * engine/services/runtime-service/internal/sandbox/pause.go, Pause: the gates at which the rounds of a
--   paused task wait; Waiting has the callers that wait, Registry the package's table of gates. The
--   polling of `WaitFrozen` and its callbacks are outside the model.
--
-- * engine/services/project-service/internal/idempotency/store.go, Idempotency: the memory store of request
--   ids, which gives a repeated request its first answer and refuses another body. Runtime has that of
--   engine/services/runtime-service/internal/service/idem_store.go, with the Redis store over its client's
--   answers. Contract is the interface that both memory stores implement. The handlers that check, execute
--   and save without a lock between these are outside the model.
-- * engine/services/project-service/internal, Accounts: users and invitation codes over the memory store
--   (repo/memory.go, repo/invite.go) and a database that is a parameter. Invites, Register, Logins and
--   Passwords follow service/invite.go, user_lifecycle.go and user.go; Rules has the checks of a new account.
-- * engine/services/runtime-service/internal/service/fixretry.go, Patches: the round that merges the fixes and
--   the second round for those that were invalid. The check of a patch is a parameter.
-- * engine/services/task-service/internal/pack/pack.go, Packs: the validation of a pack and of a directory.
-- * engine/services/gateway-service/internal/handler/authz.go, Authz: who may see a task and judge its findings.
--   The lookups in other services are parameters.
-- * engine/services/task-service/internal/service/task_stream.go, Watch: the hub that wakes the streams of a
--   task, and a stream with writers and the ticker as a step relation.
-- * baton/internal/sseframe/sseframe.go, Frames: the scan of a log of server-sent events, on bytes.
-- * engine/services/runtime-service/internal/sandbox/graph_inject.go, Graph/Reopen: the operations of people on
--   a running graph, and the event that reopens a node of a graph that has ended. Its text as JSON, and the
--   file that it is appended to, are outside the model.
-- * engine/services/gateway-service/internal/middleware/ratelimit.go, RateLimit: token buckets by user or address,
--   and the tick that drops those out of use. float64 is the interface `Float64`.
-- * engine/services/sast-adapter-service/internal/handler/fusion_handler.go, Comparison: the four quadrants of
--   the findings of scanners and of the AI, by location; Cache, the findings that the handler keeps of the
--   result service.
-- Prelude has what they share: dictionaries, equality tests, text and bytes, integers; Examples the tests.
--
-- Numbers: int32 counts wrap at 2 ^ 32; other ints are natural numbers where the code never goes below
-- zero. Times are natural numbers, with the zero time as 0. `time.Parse` and the clock are parameters.
-- Loops over slices are structural recursion, so no fuel is needed but for printing a number, whose
-- digits are no more than its value and one. The retries of a new invitation code are the source's five,
-- by structural recursion. Go's maps are association lists; where the code ranges over
-- a map, no theorem depends on the order.
--
-- Not modelled: the orchestrator, the transcoding and the watchers of the gateway, the task, result and
-- storage services but for the files above, projects and their members, the scanners' adapters, and
-- baton but for the frames; the gRPC and HTTP handlers, the databases, Kafka and the containers, which
-- are input and output; the generated protocol code but for the types in use; the web client, the
-- scripts and the editor plugin. Logging and the mutexes are left out: an operation modelled here runs
-- under its component's lock or in one goroutine, or its file says what it takes as one step.
pub mod Prelude
pub mod Verdict
pub mod Task
pub mod Fusion
pub mod Graph
pub mod Segments
pub mod Session
pub mod Pause
pub mod Idempotency
pub mod Accounts
pub mod Patches
pub mod Packs
pub mod Authz
pub mod Watch
pub mod Frames
pub mod RateLimit
pub mod Comparison
pub mod Examples
