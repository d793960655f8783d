-- ===== src/Fusion/Dedup/Lost.antt =====
-- How a group can leave the output with all its members.
use df_code_audit.Prelude.{
  String, true, false, ◌≡◌, List, [], ◌∷◌, arith, ◌≤◌, length, In, inl, inr, Bool-cases,
}
use df_code_audit.Prelude.Eq.{beq, contains, String_eq}
use text.Mathlib.TextEquality.{eq_iff}
use df_code_audit.Fusion.Finding.{MergeGroup, ids}
use df_code_audit.Fusion.Context.{FusionContext, done}
use df_code_audit.Fusion.Dedup.{primary_of, dedup_stage}
use df_code_audit.Fusion.Dedup.Output.{is_duplicate, dedup_stage_lem}

-- A group that the stage deduplicates, with an id among its members that is not its primary.
abbrev pub Removes : MergeGroup → String → Type 0
Removes g id =
    (2 ≤ length g.merged_finding_ids)
    × (contains id g.merged_finding_ids ≡ true)
    × (beq id (primary_of g) ≡ false)

is_duplicate-In :
    (gs : List MergeGroup) (g : MergeGroup) (id : String)
    → In g gs
    → Removes g id
    → is_duplicate gs id ≡ true
is_duplicate-In [] g id i r = absurd i
is_duplicate-In (x ∷ gs) g id (inl e) r = rw e (ground arith)
is_duplicate-In (x ∷ gs) g id (inr i) r = ground (arith, is_duplicate-In gs g id i r)

-- If the primary of a group is a member, not the primary, of another group, then no member of the
-- first group is in the stage's output: the place that the group stands for is no longer reported.
pub group_lost :
    {C : Type 0} (ctx : FusionContext C) (g h : MergeGroup) (id : String)
    → In g ctx.groups
    → In h ctx.groups
    → 2 ≤ length g.merged_finding_ids
    → Removes h (primary_of g)
    → contains id g.merged_finding_ids ≡ true
    → (out : FusionContext C) × (dedup_stage ctx ≡ done out)
      × (contains id (ids ctx.heap out.fused_findings) ≡ false)
group_lost ctx g h id ig ih size removes member =
    let (out, e, frame, same, once, listed) = dedup_stage_lem ctx in
    (
      out,
      e,
      elim (Bool-cases (beq id (primary_of g))) [
        | inl p ↦ rw ((eq_iff id (primary_of g)).0 p) (
            ground (
              arith,
              listed (primary_of g),
              is_duplicate-In ctx.groups h (primary_of g) ih removes,
            ))
        | inr p ↦ ground (arith, listed id, is_duplicate-In ctx.groups g id ig (size, member, p))
      ],
    )
