-- ===== src/Fusion/Conflict.antt =====
-- stage_conflict.go: where the two sides of a group disagree, the SAST severity and the AI verdict win.
pub mod Agreement
pub mod Keeps
use df_code_audit.Prelude.{
  ℕ, String, Bool, true, false, ◌&&◌, ◌||◌, not, Option, none, some, List, [], ◌∷◌, ◌++◌, length,
  if◌then◌else◌, ltb, ◌==◌,
}
use df_code_audit.Prelude.Eq.{beq, String_eq}
use df_code_audit.Prelude.Dict.{Dict, lookup, insert}
use df_code_audit.Verdict.{direction_beq, tier_beq, direction_unspecified}
use df_code_audit.Fusion.Finding.{
  Heap, Ref, UnifiedFinding, MergeGroup, ConflictItem, write, Severity, severity_beq,
}
use df_code_audit.Fusion.Context.{FusionContext, StageResult, done}

-- The first SAST member and the first AI member of a group.
pub record Sides : Type 0 where
  pub sast : Option Ref
  pub ai : Option Ref

abbrev pub or_else : Option Ref → Ref → Option Ref
or_else none p = some p
or_else (some q) p = some q

abbrev pub conflict : MergeGroup → String → String → ConflictItem
conflict g kind resolution = record {
  conflict_finding_ids = g.merged_finding_ids;
  conflict_type = kind;
  resolution = resolution;
}

module _ {C : Type 0} where
  -- The index of all findings by id; a later one replaces an earlier one.
  unfoldable pub index_by_id : Heap C → List Ref → Dict String Ref → Dict String Ref
  index_by_id heap [] m = m
  index_by_id heap (p ∷ ps) m = index_by_id heap ps (insert (heap p).finding_id p m)

  abbrev pub is_ai : UnifiedFinding C → Bool
  is_ai f = beq f.source_tool "ai_agent"

  unfoldable pub pick_side : Heap C → Option Ref → Sides → Sides
  pick_side heap none s = s
  pick_side heap (some p) s =
      if is_ai (heap p)
      then record s { ai = or_else s.ai p }
      else record s { sast = or_else s.sast p }

  unfoldable pub pick_sides : Heap C → Dict String Ref → List String → Sides → Sides
  pick_sides heap by_id [] s = s
  pick_sides heap by_id (id ∷ members) s =
      pick_sides heap by_id members (pick_side heap (lookup id by_id) s)

  unfoldable pub resolve_severity :
      MergeGroup → Ref → Ref → Heap C × List ConflictItem → Heap C × List ConflictItem
  resolve_severity g sast ai (heap, conflicts) =
      if not (severity_beq (heap sast).severity (heap ai).severity)
      then (
        write heap ai (record (heap ai) { severity = (heap sast).severity }),
        conflicts ++ conflict g "severity_mismatch" "use_sast_severity" ∷ [],
      )
      else (heap, conflicts)

  abbrev pub has_verdict : UnifiedFinding C → Bool
  has_verdict f = not (direction_beq f.verdict_direction direction_unspecified)

  abbrev pub verdicts_differ : UnifiedFinding C → UnifiedFinding C → Bool
  verdicts_differ f g =
      not (direction_beq f.verdict_direction g.verdict_direction)
      || not (tier_beq f.verdict_tier g.verdict_tier)

  unfoldable pub resolve_verdict :
      MergeGroup → Ref → Ref → Heap C × List ConflictItem → Heap C × List ConflictItem
  resolve_verdict g sast ai (heap, conflicts) =
      if has_verdict (heap sast) && has_verdict (heap ai) && verdicts_differ (heap sast) (heap ai)
      then (
        write heap sast (record (heap sast) {
          verdict_direction = (heap ai).verdict_direction;
          verdict_tier = (heap ai).verdict_tier;
        }),
        conflicts ++ conflict g "verdict_mismatch" "use_ai_verdict" ∷ [],
      )
      else (heap, conflicts)

  unfoldable pub resolve_sides :
      MergeGroup → Option Ref → Option Ref → Heap C × List ConflictItem → Heap C × List ConflictItem
  resolve_sides g (some sast) (some ai) st =
      resolve_verdict g sast ai (resolve_severity g sast ai st)
  resolve_sides g _ _ st = st

  unfoldable pub resolve_group :
      Dict String Ref → MergeGroup → Heap C × List ConflictItem → Heap C × List ConflictItem
  resolve_group by_id g st =
      let sides = pick_sides st.0 by_id g.merged_finding_ids (record { sast = none; ai = none }) in
      if ltb (length g.merged_finding_ids) 2 then st else resolve_sides g sides.sast sides.ai st

  unfoldable pub resolve_groups :
      Dict String Ref → List MergeGroup → Heap C × List ConflictItem → Heap C × List ConflictItem
  resolve_groups by_id [] st = st
  resolve_groups by_id (g ∷ gs) st = resolve_groups by_id gs (resolve_group by_id g st)

  unfoldable pub conflict_stage : FusionContext C → StageResult C
  conflict_stage ctx =
      let by_id =
        index_by_id ctx.heap ctx.filtered_ai (index_by_id ctx.heap ctx.filtered_sast []) in
      let (heap, conflicts) = resolve_groups by_id ctx.groups (ctx.heap, []) in
      done (record ctx { heap = heap; conflicts = conflicts })
