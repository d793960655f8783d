-- ===== src/Fusion/Merge.antt =====
-- stage_merge.go: findings of the two sides at one place form a group.
pub mod Paths
pub mod Groups
pub mod Unique
use df_code_audit.Prelude.{
  ℕ, suc, String, Bool, true, false, ◌&&◌, ◌||◌, not, Option, none, some, List, [], ◌∷◌, ◌++◌,
  length, filter, map, if◌then◌else◌, ◌==◌,
}
use df_code_audit.Prelude.Eq.{contains, String_eq}
use df_code_audit.Prelude.Text.{Bytes, bytes_beq, has_suffix, concat, decimal}
use df_code_audit.Fusion.Finding.{Heap, Ref, UnifiedFinding, MergeGroup, write, ids}
use df_code_audit.Fusion.Context.{FusionContext, StageResult, done, panicked, int32}

-- strings.ReplaceAll(p, "\\", "/")
unfoldable pub replace_backslashes : Bytes → Bytes
replace_backslashes [] = []
replace_backslashes (c ∷ s) = (if c == 92 then b'/' else c) ∷ replace_backslashes s

-- The loop that removes "./" from the front as long as it stands there.
unfoldable pub trim_dots : Bytes → Bytes
trim_dots [] = []
trim_dots (c ∷ []) = c ∷ []
trim_dots (c ∷ d ∷ s) = if c == b'.' && d == b'/' then trim_dots s else c ∷ d ∷ s

-- strings.TrimPrefix(p, "/")
unfoldable pub trim_slash : Bytes → Bytes
trim_slash [] = []
trim_slash (c ∷ s) = if c == b'/' then s else c ∷ s

unfoldable pub normalize_rel_path : Bytes → Bytes
unfolding replace_backslashes trim_dots trim_slash
normalize_rel_path p = trim_slash (trim_dots (replace_backslashes p))

unfoldable pub same_vuln_file : Bytes → Bytes → Bool
same_vuln_file sast_path ai_path =
    let s = normalize_rel_path sast_path in
    let a = normalize_rel_path ai_path in bytes_beq s a || has_suffix s (b'/' ∷ a)

-- The loop's state: the heap, the groups so far and the ids that are in one.
pub record Merging (C : Type 0) : Type 0 where
  pub heap : Heap C
  pub groups : List MergeGroup
  pub group_counter : ℕ
  pub merged_ids : List String

module _ {C : Type 0} where
  -- Whether a SAST finding is at the place of an AI finding.
  unfoldable pub same_place : UnifiedFinding C → UnifiedFinding C → Bool
  same_place ai sast =
      sast.start_line == ai.start_line && same_vuln_file sast.file_path ai.file_path

  unfoldable pub sast_matches : Heap C → List Ref → Ref → List Ref
  sast_matches heap sast ai = filter (λ p. same_place (heap ai) (heap p)) sast

  unfoldable pub add_match : Heap C → Ref → String → Heap C
  add_match heap p id =
      write heap p (record (heap p) { matched_findings = (heap p).matched_findings ++ id ∷ [] })

  -- The loop over the matched SAST findings.
  unfoldable pub add_matches : Heap C → List Ref → String → Heap C
  add_matches heap [] id = heap
  add_matches heap (p ∷ ps) id = add_matches (add_match heap p id) ps id

  unfoldable pub new_group : Heap C → ℕ → Ref → Ref → List Ref → MergeGroup
  new_group heap n ai primary others = record {
    group_id = concat "group_" (decimal n);
    merged_finding_ids = (heap ai).finding_id ∷ ids heap (primary ∷ others);
    primary_finding_id = (heap primary).finding_id;
    merge_reason = "same_location_match";
  }

  unfoldable pub merge_found : Merging C → Ref → List Ref → Merging C
  merge_found st ai [] = st
  merge_found st ai (primary ∷ others) =
      let heap = st.heap in
      let group = new_group heap (suc st.group_counter) ai primary others in
      let marked = add_matches heap (primary ∷ others) (heap ai).finding_id in
      record {
        heap = add_match marked ai (heap primary).finding_id;
        groups = st.groups ++ group ∷ [];
        group_counter = suc st.group_counter;
        merged_ids = st.merged_ids ++ group.merged_finding_ids;
      }

  -- One round of the loop over the AI findings.
  unfoldable pub merge_one : List Ref → Merging C → Ref → Merging C
  merge_one sast st ai = merge_found st ai (sast_matches st.heap sast ai)

  unfoldable pub merge_all : List Ref → List Ref → Merging C → Merging C
  merge_all sast [] st = st
  merge_all sast (ai ∷ ais) st = merge_all sast ais (merge_one sast st ai)

  -- The two last loops: what is in no group is marked as unique.
  unfoldable pub mark_unique : List String → List Ref → Heap C → Heap C
  mark_unique merged [] heap = heap
  mark_unique merged (p ∷ ps) heap = mark_unique merged ps (
      if not (contains (heap p).finding_id merged)
      then write heap p (record (heap p) { is_unique = true })
      else heap)

  -- Writing through a nil `Metrics` panics.
  unfoldable pub merge_stage : FusionContext C → StageResult C
  merge_stage ctx =
      let st =
        merge_all ctx.filtered_sast ctx.filtered_ai
          (record { heap = ctx.heap; groups = []; group_counter = 0; merged_ids = [] }) in
      let heap =
        mark_unique st.merged_ids ctx.filtered_ai
          (mark_unique st.merged_ids ctx.filtered_sast st.heap) in
      elim ctx.metrics [
        | none ↦ panicked
        | some m ↦ done (record ctx {
          heap = heap;
          groups = st.groups;
          metrics = some (record m { merged_count = int32 (length st.groups) });
        })
      ]
