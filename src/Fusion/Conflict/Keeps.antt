-- ===== src/Fusion/Conflict/Keeps.antt =====
-- What the conflict stage leaves alone.
use df_code_audit.Prelude.{
  ◌≡◌, refl, ◌&&◌, Option, none, some, List, [], ◌∷◌, inl, inr, Bool-cases, length, ltb,
}
use df_code_audit.Prelude.Dict.{Dict}
use df_code_audit.Prelude.{String}
use df_code_audit.Fusion.Finding.{
  Heap, Ref, MergeGroup, ConflictItem, severity_beq, Same, Same-refl, Same-trans, Same-write,
}
use df_code_audit.Fusion.Context.{FusionContext, done}
use df_code_audit.Fusion.Conflict.{
  pick_sides, resolve_severity, resolve_verdict, has_verdict, verdicts_differ, resolve_sides,
  resolve_group, resolve_groups, conflict_stage, index_by_id,
}

module _ {C : Type 0} where
  severity-Same :
      (g : MergeGroup) (sast ai : Ref) (st : Heap C × List ConflictItem)
      → Same (resolve_severity g sast ai st).0 st.0
  unfolding resolve_severity
  severity-Same g sast ai (heap, conflicts) =
      elim (Bool-cases (severity_beq (heap sast).severity (heap ai).severity)) [
        | inl e ↦ rw (e, resolve_severity) (Same-refl heap)
        | inr e ↦ rw (e, resolve_severity) (Same-write heap ai _ refl refl refl refl)
      ]

  verdict-Same :
      (g : MergeGroup) (sast ai : Ref) (st : Heap C × List ConflictItem)
      → Same (resolve_verdict g sast ai st).0 st.0
  unfolding resolve_verdict
  verdict-Same g sast ai (heap, conflicts) =
      elim (Bool-cases (
        has_verdict (heap sast)
        && has_verdict (heap ai)
        && verdicts_differ (heap sast) (heap ai))) [
          | inl e ↦ rw (e, resolve_verdict) (Same-write heap sast _ refl refl refl refl)
          | inr e ↦ rw (e, resolve_verdict) (Same-refl heap)
        ]

  sides-Same :
      (g : MergeGroup) (sast ai : Option Ref) (st : Heap C × List ConflictItem)
      → Same (resolve_sides g sast ai st).0 st.0
  unfolding resolve_sides
  sides-Same g (some sast) (some ai) st =
      Same-trans (verdict-Same g sast ai (resolve_severity g sast ai st))
        (severity-Same g sast ai st)
  sides-Same g none ai st = Same-refl st.0
  sides-Same g (some sast) none st = Same-refl st.0

  group-Same :
      (by_id : Dict String Ref) (g : MergeGroup) (st : Heap C × List ConflictItem)
      → Same (resolve_group by_id g st).0 st.0
  unfolding resolve_group
  group-Same by_id g st = elim (Bool-cases (ltb (length g.merged_finding_ids) 2)) [
    | inl e ↦ rw (e, resolve_group) (Same-refl st.0)
    | inr e ↦
        let sides =
          pick_sides st.0 by_id g.merged_finding_ids (record { sast = none; ai = none }) in
        rw (e, resolve_group) (sides-Same g sides.sast sides.ai st)
  ]

  groups-Same :
      (by_id : Dict String Ref) (gs : List MergeGroup) (st : Heap C × List ConflictItem)
      → Same (resolve_groups by_id gs st).0 st.0
  unfolding resolve_groups
  groups-Same by_id [] st = Same-refl st.0
  groups-Same by_id (g ∷ gs) st =
      Same-trans (groups-Same by_id gs (resolve_group by_id g st)) (group-Same by_id g st)

  -- The stage succeeds, and changes nothing of the context but the heap and the conflicts; no
  -- finding's id, tool or place changes.
  pub conflict_stage-Same :
      (ctx : FusionContext C)
      → (out : FusionContext C) × (conflict_stage ctx ≡ done out)
        × Same out.heap ctx.heap
        × (out ≡ record ctx { heap = out.heap; conflicts = out.conflicts })
  unfolding conflict_stage
  conflict_stage-Same ctx =
      let by_id =
        index_by_id ctx.heap ctx.filtered_ai (index_by_id ctx.heap ctx.filtered_sast []) in
      let st = resolve_groups by_id ctx.groups (ctx.heap, []) in
      (
        record ctx { heap = st.0; conflicts = st.1 },
        refl,
        groups-Same by_id ctx.groups (ctx.heap, []),
        refl,
      )
