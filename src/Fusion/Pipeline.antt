-- ===== src/Fusion/Pipeline.antt =====
-- pipeline.go: the stages in order, the deadline, and the fallback to the unfused findings.
pub mod Total
pub mod Fallback
use df_code_audit.Prelude.{
  ℕ, suc, String, Bool, true, false, not, Option, none, some, List, [], ◌∷◌, ◌++◌, length,
  if◌then◌else◌, count_if,
}
use df_code_audit.Prelude.Eq.{contains, String_eq}
use df_code_audit.Fusion.Float.{Float32}
use df_code_audit.Fusion.Finding.{Heap, Ref, MergeGroup, ConflictItem, FilteredItem, ids}
use df_code_audit.Fusion.Context.{FusionContext, FusionMetrics, StageResult, done, failed, int32}
use df_code_audit.Fusion.Filter.{filter_stage}
use df_code_audit.Fusion.Merge.{merge_stage}
use df_code_audit.Fusion.Dedup.{dedup_stage}
use df_code_audit.Fusion.Conflict.{conflict_stage}
use df_code_audit.Fusion.Confidence.{confidence_stage}

pub record FusionReport : Type 0 where
  pub merge_groups : List MergeGroup
  pub report_conflicts : List ConflictItem
  pub report_filtered : List FilteredItem

pub record FusionResult : Type 0 where
  pub fused_finding_ids : List String
  pub total_count : ℕ
  pub removed_false_positives : ℕ
  pub added_ai_findings : ℕ
  pub metrics : FusionMetrics
  pub report : FusionReport

-- How `Execute` ends: an error for the deadline, a result, or a panic (of `buildResult`, which runs
-- outside `runStage`).
pub data Outcome : Type 0 where
  deadline_exceeded : Outcome
  result : FusionResult → Outcome
  build_panic : Outcome

abbrev pub Stage : Type 0 → Type 0
Stage C = FusionContext C → StageResult C

-- The ids that some group has, `mergedAIFindings`.
abbrev pub grouped_ids : List MergeGroup → List String
grouped_ids [] = []
grouped_ids (g ∷ gs) = g.merged_finding_ids ++ grouped_ids gs

module _ {C : Type 0} where
  -- The AI findings that are in no group.
  unfoldable pub added_ai : FusionContext C → ℕ
  added_ai ctx =
      count_if (λ p. not (contains (ctx.heap p).finding_id (grouped_ids ctx.groups)))
        ctx.ai_findings

  -- The result with the pipeline's metrics and its measured duration.
  unfoldable pub result_of : FusionContext C → FusionMetrics → ℕ → FusionResult
  result_of ctx m duration =
      let fused = ids ctx.heap ctx.fused_findings in
      record {
        fused_finding_ids = fused;
        total_count = int32 (length fused);
        removed_false_positives = m.removed_false_positives;
        added_ai_findings = int32 (added_ai ctx);
        metrics = record {
          duration_ms = duration;
          input_sast_count = m.input_sast_count;
          input_ai_count = m.input_ai_count;
          output_count = int32 (length fused);
          merged_count = m.merged_count;
          removed_false_positives = m.removed_false_positives;
          added_ai_findings = int32 (added_ai ctx);
        };
        report = record {
          merge_groups = ctx.groups;
          report_conflicts = ctx.conflicts;
          report_filtered = ctx.filtered;
        };
      }

  unfoldable pub build_result : FusionContext C → ℕ → Outcome
  build_result ctx duration = elim ctx.metrics [
    | none ↦ build_panic
    | some m ↦ result (result_of ctx m duration)
  ]

  unfoldable pub build_fallback_result : FusionContext C → ℕ → FusionResult
  build_fallback_result ctx duration =
      let all_findings = ctx.sast_findings ++ ctx.ai_findings in
      let found = ids ctx.heap all_findings in
      record {
        fused_finding_ids = found;
        total_count = int32 (length found);
        removed_false_positives = 0;
        added_ai_findings = 0;
        metrics = record {
          duration_ms = duration;
          input_sast_count = int32 (length ctx.sast_findings);
          input_ai_count = int32 (length ctx.ai_findings);
          output_count = int32 (length all_findings);
          merged_count = 0;
          removed_false_positives = 0;
          added_ai_findings = 0;
        };
        report = record { merge_groups = []; report_conflicts = []; report_filtered = [] };
      }

  -- The context that `Execute` starts from.
  abbrev pub init_context : Heap C → String → List Ref → List Ref → FusionContext C
  init_context heap task sast ai = record {
    heap = heap;
    task_id = task;
    sast_findings = sast;
    ai_findings = ai;
    filtered_sast = [];
    filtered_ai = [];
    groups = [];
    conflicts = [];
    filtered = [];
    fused_findings = [];
    metrics = none;
  }

  abbrev pub context_or : Option (FusionContext C) → FusionContext C → FusionContext C
  context_or none initial = initial
  context_or (some ctx) initial = ctx

  -- The loop over the stages. `expired n` tells whether the deadline has passed when the stage with
  -- `n` before it is due. A stage writes no id of a finding, so the fallback of a stage that panicked
  -- reads the ids of the heap that the pipeline started from.
  unfoldable pub run_stages :
      (ℕ → Bool) → ℕ → FusionContext C → List (Stage C) → ℕ → FusionContext C → Outcome
  run_stages expired duration initial [] n ctx = build_result ctx duration
  run_stages expired duration initial (stage ∷ stages) n ctx = elim (expired n) [
    | true ↦ deadline_exceeded
    | false ↦ elim (stage ctx) [
      | done ctx' ↦ run_stages expired duration initial stages (suc n) ctx'
      | failed o ↦ result (build_fallback_result (context_or o initial) duration)
    ]
  ]

  unfoldable pub execute :
      List (Stage C) → (ℕ → Bool) → ℕ → Heap C → String → List Ref → List Ref → Outcome
  execute stages expired duration heap task sast ai =
      let initial = init_context heap task sast ai in
      run_stages expired duration initial stages 0 initial

  -- `NewFusionPipeline`: the order of the stages.
  unfoldable pub new_pipeline : Float32 C → List (Stage C)
  new_pipeline fl =
      filter_stage fl ∷ merge_stage ∷ dedup_stage ∷ conflict_stage ∷ confidence_stage fl ∷ []
