-- ===== src/Fusion.antt =====
-- engine/services/sast-adapter-service/internal/fusion: the five stages and the pipeline.
pub mod Float
pub mod Finding
pub mod Context
pub mod Filter
pub mod Merge
pub mod Dedup
pub mod Conflict
pub mod Confidence
pub mod Pipeline
