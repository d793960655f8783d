-- ===== src/Fusion/Confidence/Bound.antt =====
-- The confidence stage keeps confidences at or below one, and touches nothing else.
use df_code_audit.Prelude.{
  ℕ, String, false, ◌≡◌, refl, Option, none, some, List, [], ◌∷◌, length, if◌then◌else◌, ltb, arith,
  inl, inr, Bool-cases,
}
use df_code_audit.Prelude.Eq.{String_eq}
use df_code_audit.Prelude.Dict.{Dict}
use df_code_audit.Fusion.Float.{Float32}
use df_code_audit.Fusion.Finding.{Heap, Ref, MergeGroup, Same, Same-refl, Same-trans, Same-write}
use df_code_audit.Fusion.Context.{FusionContext, done}
use df_code_audit.Fusion.Conflict.{index_by_id}
use df_code_audit.Fusion.Confidence.{
  fused_confidence, fuse_primary, fuse_group, fuse_groups, confidence_stage,
}

module _ {C : Type 0} (fl : Float32 C) where
  fuse_primary-Same :
      (heap : Heap C) (o : Option Ref) (total : C) (count : ℕ)
      → Same (fuse_primary fl heap o total count) heap
  unfolding fuse_primary
  fuse_primary-Same heap none total count = Same-refl heap
  fuse_primary-Same heap (some p) total count = elim (Bool-cases (ltb 0 count)) [
    | inl e ↦ rw (e, fuse_primary) (Same-write heap p _ refl refl refl refl)
    | inr e ↦ rw (e, fuse_primary) (Same-refl heap)
  ]

  fuse_group-Same :
      (fused : List Ref) (members : Dict String Ref) (heap : Heap C) (g : MergeGroup)
      → Same (fuse_group fl fused members heap g) heap
  unfolding fuse_group
  fuse_group-Same fused members heap g = elim (Bool-cases (ltb (length g.merged_finding_ids) 2)) [
    | inl e ↦ rw (e, fuse_group) (Same-refl heap)
    | inr e ↦ rw (e, fuse_group) (fuse_primary-Same heap _ _ _)
  ]

  pub fuse_groups-Same :
      (fused sast ai : List Ref) (gs : List MergeGroup) (heap : Heap C)
      → Same (fuse_groups fl fused sast ai gs heap) heap
  unfolding fuse_groups
  fuse_groups-Same fused sast ai [] heap = Same-refl heap
  fuse_groups-Same fused sast ai (g ∷ gs) heap =
      let members = index_by_id heap ai (index_by_id heap sast []) in
      Same-trans (fuse_groups-Same fused sast ai gs (fuse_group fl fused members heap g))
        (fuse_group-Same fused members heap g)

  -- The stage succeeds, and changes nothing of the context but the heap; no finding's id, tool or
  -- place changes.
  pub confidence_stage-Same :
      (ctx : FusionContext C)
      → (out : FusionContext C) × (confidence_stage fl ctx ≡ done out)
        × Same out.heap ctx.heap
        × (out ≡ record ctx { heap = out.heap })
  unfolding confidence_stage
  confidence_stage-Same ctx =
      let heap =
        fuse_groups fl ctx.fused_findings ctx.filtered_sast ctx.filtered_ai ctx.groups ctx.heap in
      (
        record ctx { heap = heap },
        refl,
        fuse_groups-Same ctx.fused_findings ctx.filtered_sast ctx.filtered_ai ctx.groups ctx.heap,
        refl,
      )

  abbrev pub IsBounded : Heap C → Type 0
  IsBounded heap = (p : Ref) → fl.gt (heap p).confidence fl.one ≡ false

  module _ (one_not_above : fl.gt fl.one fl.one ≡ false) where
    clip : (x : C) → fl.gt (if fl.gt x fl.one then fl.one else x) fl.one ≡ false
    clip x = elim (Bool-cases (fl.gt x fl.one)) [ inl e ↦ rw e one_not_above | inr e ↦ rw e e ]

    fused_confidence_bound :
        (total : C) (count : ℕ) → fl.gt (fused_confidence fl total count) fl.one ≡ false
    unfolding fused_confidence
    fused_confidence_bound total count = clip _

    fuse_primary-IsBounded :
        (heap : Heap C) (o : Option Ref) (total : C) (count : ℕ)
        → IsBounded heap
        → IsBounded (fuse_primary fl heap o total count)
    unfolding fuse_primary
    fuse_primary-IsBounded heap none total count h = h
    fuse_primary-IsBounded heap (some p) total count h =
        λ q. ground (arith, h q, fused_confidence_bound total count)

    fuse_group-IsBounded :
        (fused : List Ref) (members : Dict String Ref) (heap : Heap C) (g : MergeGroup)
        → IsBounded heap
        → IsBounded (fuse_group fl fused members heap g)
    unfolding fuse_group
    fuse_group-IsBounded fused members heap g h =
        elim (Bool-cases (ltb (length g.merged_finding_ids) 2)) [
          | inl e ↦ rw (e, fuse_group) h
          | inr e ↦ rw (e, fuse_group) (fuse_primary-IsBounded heap _ _ _ h)
        ]

    fuse_groups-IsBounded :
        (fused sast ai : List Ref) (gs : List MergeGroup) (heap : Heap C)
        → IsBounded heap
        → IsBounded (fuse_groups fl fused sast ai gs heap)
    unfolding fuse_groups
    fuse_groups-IsBounded fused sast ai [] heap h = h
    fuse_groups-IsBounded fused sast ai (g ∷ gs) heap h =
        let members = index_by_id heap ai (index_by_id heap sast []) in
        fuse_groups-IsBounded fused sast ai gs (fuse_group fl fused members heap g)
          (fuse_group-IsBounded fused members heap g h)

    -- If one is not above one and no finding's confidence is above one, then after the stage, too,
    -- no finding's confidence is above one.
    pub confidence_stage-IsBounded :
        (ctx : FusionContext C)
        → IsBounded ctx.heap
        → (out : FusionContext C) × (confidence_stage fl ctx ≡ done out) × IsBounded out.heap
    unfolding confidence_stage
    confidence_stage-IsBounded ctx h = (
      record ctx {
        heap =
            fuse_groups fl ctx.fused_findings ctx.filtered_sast ctx.filtered_ai ctx.groups ctx.heap;
      },
      refl,
      fuse_groups-IsBounded ctx.fused_findings ctx.filtered_sast ctx.filtered_ai ctx.groups ctx.heap
          h,
    )
