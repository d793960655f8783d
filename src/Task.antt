-- ===== src/Task.antt =====
-- The task service's core: the state machine of a scan task and the timeout reconciler.
pub mod Status
pub mod StateMachine
pub mod Reconciler
