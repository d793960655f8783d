-- ===== src/Examples.antt =====
-- The theorems at concrete inputs.
pub mod Verdicts
pub mod Tasks
pub mod Sweeps
pub mod Fusing
pub mod Stages
pub mod Graphs
pub mod Sessions
pub mod Segmenting
pub mod Pausing
pub mod Repeats
pub mod Accounting
pub mod Services
pub mod Limits
