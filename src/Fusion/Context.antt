-- ===== src/Fusion/Context.antt =====
-- `FusionContext` and `FusionMetrics` of pipeline.go, and how a stage ends.
use df_code_audit.Prelude.{ℕ, ◌%◌, ◌^◌, String, Option, none, List}
use df_code_audit.Fusion.Finding.{Heap, Ref, MergeGroup, ConflictItem, FilteredItem}

-- The bit pattern of `int32(n)`.
abbrev pub int32 : ℕ → ℕ
int32 n = n % 2 ^ 32

pub record FusionMetrics : Type 0 where
  pub duration_ms : ℕ
  pub input_sast_count : ℕ
  pub input_ai_count : ℕ
  pub output_count : ℕ
  pub merged_count : ℕ
  pub removed_false_positives : ℕ
  pub added_ai_findings : ℕ

-- The context carries the heap that its references point into. `metrics` is a pointer.
pub record FusionContext (C : Type 0) : Type 0 where
  pub heap : Heap C
  pub task_id : String
  pub sast_findings : List Ref
  pub ai_findings : List Ref
  pub filtered_sast : List Ref
  pub filtered_ai : List Ref
  pub groups : List MergeGroup
  pub conflicts : List ConflictItem
  pub filtered : List FilteredItem
  pub fused_findings : List Ref
  pub metrics : Option FusionMetrics

-- A stage returns its context, or an error beside a context that may be nil; `runStage` turns a
-- panic into an error with a nil context.
pub data StageResult (C : Type 0) : Type 0 where
  done : FusionContext C → StageResult C
  failed : Option (FusionContext C) → StageResult C

abbrev pub panicked : {C : Type 0} → StageResult C
panicked = failed none
