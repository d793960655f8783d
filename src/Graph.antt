-- ===== src/Graph.antt =====
-- engine/services/runtime-service/internal/sandbox: the state of a graph task, folded from its log.
pub mod Event
pub mod State
pub mod Numbering
pub mod Apply
pub mod Replay
pub mod Reopen
