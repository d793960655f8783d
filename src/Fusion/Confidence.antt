-- ===== src/Fusion/Confidence.antt =====
-- stage_confidence.go: the primary of a group takes the members' mean confidence, raised by a tenth for
-- each confirmation beyond the first, and cut off at one.
pub mod Bound
use df_code_audit.Prelude.{
  ℕ, suc, ◌-◌, String, Bool, true, false, Option, none, some, List, [], ◌∷◌, length, find,
  if◌then◌else◌, ltb,
}
use df_code_audit.Prelude.Eq.{beq, String_eq}
use df_code_audit.Prelude.Dict.{Dict, lookup}
use df_code_audit.Fusion.Float.{Float32}
use df_code_audit.Fusion.Finding.{Heap, Ref, UnifiedFinding, MergeGroup, write}
use df_code_audit.Fusion.Context.{FusionContext, StageResult, done}
use df_code_audit.Fusion.Conflict.{index_by_id}

module _ {C : Type 0} (fl : Float32 C) where
  -- The loop over a group's ids: the sum of the confidences and their number.
  unfoldable pub add_confidence : Heap C → Option Ref → C × ℕ → C × ℕ
  add_confidence heap none (total, count) = (total, count)
  add_confidence heap (some p) (total, count) = (fl.add total (heap p).confidence, suc count)

  unfoldable pub total_confidence : Heap C → Dict String Ref → List String → C × ℕ → C × ℕ
  total_confidence heap members [] acc = acc
  total_confidence heap members (id ∷ ids) acc =
      total_confidence heap members ids (add_confidence heap (lookup id members) acc)

  unfoldable pub fused_confidence : C → ℕ → C
  fused_confidence total count =
      let average = fl.div total (fl.of_int count) in
      let boost =
        if ltb 1 count then fl.add fl.one (fl.mul fl.tenth (fl.of_int (count - 1))) else fl.one in
      let fused = fl.mul average boost in if fl.gt fused fl.one then fl.one else fused

  unfoldable pub fuse_primary : Heap C → Option Ref → C → ℕ → Heap C
  fuse_primary heap none total count = heap
  fuse_primary heap (some primary) total count =
      if ltb 0 count
      then write heap primary (record (heap primary) { confidence = fused_confidence total count })
      else heap

  unfoldable pub fuse_group : List Ref → Dict String Ref → Heap C → MergeGroup → Heap C
  fuse_group fused members heap g =
      let primary = find (λ p. beq (heap p).finding_id g.primary_finding_id) fused in
      let (total, count) = total_confidence heap members g.merged_finding_ids (fl.zero, 0) in
      if ltb (length g.merged_finding_ids) 2 then heap else fuse_primary heap primary total count

  -- The map of members is built anew for each group, over ids that no group's write changes.
  unfoldable pub fuse_groups : List Ref → List Ref → List Ref → List MergeGroup → Heap C → Heap C
  fuse_groups fused sast ai [] heap = heap
  fuse_groups fused sast ai (g ∷ gs) heap =
      let members = index_by_id heap ai (index_by_id heap sast []) in
      fuse_groups fused sast ai gs (fuse_group fused members heap g)

  unfoldable pub confidence_stage : FusionContext C → StageResult C
  confidence_stage ctx = done (record ctx {
    heap = fuse_groups ctx.fused_findings ctx.filtered_sast ctx.filtered_ai ctx.groups ctx.heap;
  })
