-- ===== src/Examples/Stages.antt =====
-- The stages after the filter, on the findings of the two applications.
use df_code_audit.Prelude.{
  ℕ, String, false, not, ◌&&◌, ◌||◌, ◌≡◌, refl, none, some, [], ◌∷◌, arith, inl, inr,
}
use df_code_audit.Prelude.Eq.{String_eq, contains, Distinct}
use df_code_audit.Prelude.Dict.{lookup, insert}
use df_code_audit.Fusion.Finding.{MergeGroup, ids, Same}
use df_code_audit.Fusion.Context.{FusionContext, FusionMetrics, done}
use df_code_audit.Fusion.Merge.{merge_stage}
use df_code_audit.Fusion.Merge.Groups.{place_groups}
use df_code_audit.Fusion.Merge.Unique.{merge_stage_lem}
use df_code_audit.Fusion.Dedup.{dedup_stage}
use df_code_audit.Fusion.Dedup.Output.{is_duplicate, dedup_stage_lem}
use df_code_audit.Fusion.Dedup.Lost.{group_lost}
use df_code_audit.Fusion.Conflict.{index_by_id, pick_side, pick_sides}
use df_code_audit.Fusion.Confidence.Bound.{IsBounded}
use df_code_audit.Examples.Fusing.{hundredths, found}

abbrev counted : FusionMetrics
counted = record {
  duration_ms = 0;
  input_sast_count = 3;
  input_ai_count = 2;
  output_count = 0;
  merged_count = 0;
  removed_false_positives = 1;
  added_ai_findings = 0;
}

-- The AI's first finding matches both applications, and its second one the second application.
abbrev first_group : MergeGroup
first_group = record {
  group_id = "group_1";
  merged_finding_ids = "a3" ∷ "s0" ∷ "s1" ∷ [];
  primary_finding_id = "s0";
  merge_reason = "same_location_match";
}

abbrev second_group : MergeGroup
second_group = record {
  group_id = "group_2";
  merged_finding_ids = "a4" ∷ "s1" ∷ [];
  primary_finding_id = "s1";
  merge_reason = "same_location_match";
}

abbrev context : FusionContext ℕ
context = record {
  heap = found;
  task_id = "task";
  sast_findings = 0 ∷ 1 ∷ 2 ∷ [];
  ai_findings = 3 ∷ 4 ∷ [];
  filtered_sast = 0 ∷ 1 ∷ [];
  filtered_ai = 3 ∷ 4 ∷ [];
  groups = first_group ∷ second_group ∷ [];
  conflicts = [];
  filtered = [];
  fused_findings = [];
  metrics = some counted;
}

merge_stage_lem_example :
    (out : FusionContext ℕ) × (merge_stage context ≡ done out)
    × (out.groups ≡ place_groups found (0 ∷ 1 ∷ []) 0 (3 ∷ 4 ∷ []))
merge_stage_lem_example =
    let (out, e, groups, m, frame, same, unique) = merge_stage_lem context counted refl in
    (out, e, groups)

dedup_stage_lem_example :
    (out : FusionContext ℕ) × (dedup_stage context ≡ done out)
    × (out ≡ record context { heap = out.heap; fused_findings = out.fused_findings })
    × Same out.heap found
    × Distinct (ids found out.fused_findings)
    × ((id : String)
        → contains id (ids found out.fused_findings) ≡ (
            (contains id (ids found (0 ∷ 1 ∷ [])) || contains id (ids found (3 ∷ 4 ∷ [])))
            && not (is_duplicate (first_group ∷ second_group ∷ []) id)))
dedup_stage_lem_example = dedup_stage_lem context

-- The second application's injection is in no finding of the output.
group_lost_example :
    (out : FusionContext ℕ) × (dedup_stage context ≡ done out)
    × (contains "s1" (ids found out.fused_findings) ≡ false)
group_lost_example =
    group_lost context second_group first_group "s1" (inr (inl refl)) (inl refl) (omega arith)
      (omega arith, refl, refl) refl

by_id :
    pick_sides found
      (index_by_id found (3 ∷ 4 ∷ []) (index_by_id found (0 ∷ 1 ∷ []) []))
      ("a3" ∷ "s0" ∷ "s1" ∷ [])
      (record { sast = none; ai = none })
    ≡ record { sast = some 0; ai = some 3 }
unfolding pick_sides pick_side index_by_id lookup insert
by_id = refl

found-IsBounded : IsBounded hundredths found
found-IsBounded p = ground arith
