-- ===== src/Fusion/Dedup/Output.antt =====
-- Which findings the deduplication keeps.
use df_code_audit.Prelude.{
  String, Bool, false, ◌≡◌, refl, ap, ◌∙◌, List, [], ◌∷◌, arith, not, ◌||◌, ◌&&◌, ltb, length, inl,
  inr, Bool-cases, Option, none, some,
}
use df_code_audit.Prelude.Eq.{beq, contains, contains-append, String_eq, Distinct, Distinct-snoc}
use mathlib.Core.List.{map-append}
use text.Mathlib.TextEquality.{eq_iff}
use df_code_audit.Prelude.Dict.{lookup}
use df_code_audit.Fusion.Finding.{
  Heap, Ref, UnifiedFinding, MergeGroup, ids, Same, Same-refl, Same-trans, Same-write,
}
use df_code_audit.Fusion.Context.{FusionContext, done}
use df_code_audit.Fusion.Dedup.{
  Marks, mark_member, mark_members, primary_of, mark_group, mark_groups, Aligning, with_group,
  append_finding, append_findings, dedup_stage,
}

-- An id is a duplicate in a group of two or more members if it is one of them and not its primary.
abbrev pub is_duplicate : List MergeGroup → String → Bool
is_duplicate [] id = false
is_duplicate (g ∷ gs) id =
    (not (ltb (length g.merged_finding_ids) 2)
      && contains id g.merged_finding_ids
      && not (beq id (primary_of g)))
    || is_duplicate gs id

mark_members-remove :
    (gid primary : String) (members : List String) (m : Marks) (id : String)
    → contains id (mark_members gid primary members m).remove
      ≡ (contains id m.remove || (contains id members && not (beq id primary)))
unfolding mark_members mark_member
mark_members-remove gid primary [] m id = ground arith
mark_members-remove gid primary (x ∷ members) m id = ground (
  arith,
  mark_members-remove gid primary members (mark_member gid primary m x) id,
  contains-append id m.remove (x ∷ []),
  eq_iff x id,
  eq_iff x primary,
  eq_iff id primary,
)

mark_group-remove :
    (g : MergeGroup) (m : Marks) (id : String)
    → contains id (mark_group m g).remove ≡ (contains id m.remove || is_duplicate (g ∷ []) id)
unfolding mark_group
mark_group-remove g m id = elim (Bool-cases (ltb (length g.merged_finding_ids) 2)) [
  | inl e ↦ rw (e, mark_group) (ground arith)
  | inr e ↦
      rw (e, mark_group)
        (mark_members-remove _ (primary_of g) g.merged_finding_ids _ id ∙ ground arith)
]

mark_groups-remove :
    (gs : List MergeGroup) (m : Marks) (id : String)
    → contains id (mark_groups gs m).remove ≡ (contains id m.remove || is_duplicate gs id)
unfolding mark_groups
mark_groups-remove [] m id = ground arith
mark_groups-remove (g ∷ gs) m id =
    mark_groups-remove gs (mark_group m g) id
    ∙ ap (λ (b : Bool). b || is_duplicate gs id) (mark_group-remove g m id)
    ∙ ground arith

module _ {C : Type 0} where
  with_group-fields :
      (f : UnifiedFinding C) (gid : Option String)
      → ((with_group f gid).finding_id ≡ f.finding_id)
        × ((with_group f gid).source_tool ≡ f.source_tool)
        × ((with_group f gid).file_path ≡ f.file_path)
        × ((with_group f gid).start_line ≡ f.start_line)
  with_group-fields f none = (refl, refl, refl, refl)
  with_group-fields f (some gid) = (ground arith, ground arith, ground arith, ground arith)

  -- Whether a finding is left out by `appendF`.
  abbrev skipped : Marks → Aligning C → Ref → Bool
  skipped m st p =
      contains (st.heap p).finding_id st.seen || contains (st.heap p).finding_id m.remove

  append_finding-Same :
      (m : Marks) (st : Aligning C) (p : Ref) → Same (append_finding m st p).heap st.heap
  unfolding append_finding
  append_finding-Same m st p = elim (Bool-cases (skipped m st p)) [
    | inl e ↦ rw (e, append_finding) (Same-refl st.heap)
    | inr e ↦
        let gid = lookup (st.heap p).finding_id m.group_of in
        let (a, b, c, d) = with_group-fields (st.heap p) gid in
        rw (e, append_finding) (Same-write st.heap p (with_group (st.heap p) gid) a b c d)
  ]

  -- What holds between two rounds, against the heap that the stage starts from.
  record Inv (start : Heap C) (st : Aligning C) : Type 0 where
    same : Same st.heap start
    listed : ids start st.unique ≡ st.seen
    distinct : Distinct st.seen

  module _ (start : Heap C) (m : Marks) where
    -- The ids seen after a round.
    append_finding-seen :
        (st : Aligning C) (p : Ref) (id : String)
        → Same st.heap start
        → contains id (append_finding m st p).seen ≡ (
            contains id st.seen
            || (beq (start p).finding_id id && not (contains (start p).finding_id m.remove)))
    unfolding append_finding
    append_finding-seen st p id same = ground (
      arith,
      same.same_id p,
      eq_iff (start p).finding_id id,
      contains-append id st.seen ((start p).finding_id ∷ []),
    )

    append_finding-Inv :
        (st : Aligning C) (p : Ref) → Inv start st → Inv start (append_finding m st p)
    unfolding append_finding
    append_finding-Inv st p v = elim (Bool-cases (skipped m st p)) [
      | inl e ↦ rw (e, append_finding) v
      | inr e ↦
          rw (e, append_finding)
            (record {
              same = rw (e, append_finding) at (Same-trans (append_finding-Same m st p) v.same);
              listed =
                  map-append (λ q. (start q).finding_id) st.unique (p ∷ [])
                  ∙ rw (v.listed, v.same.same_id p);
              distinct = Distinct-snoc st.seen (st.heap p).finding_id (ground arith) v.distinct;
            })
    ]

    append_findings-Inv :
        (ps : List Ref) (st : Aligning C) → Inv start st → Inv start (append_findings m ps st)
    unfolding append_findings
    append_findings-Inv [] st v = v
    append_findings-Inv (p ∷ ps) st v =
        append_findings-Inv ps (append_finding m st p) (append_finding-Inv st p v)

    append_findings-seen :
        (ps : List Ref) (st : Aligning C) (id : String)
        → Inv start st
        → contains id (append_findings m ps st).seen
          ≡ (contains id st.seen || (contains id (ids start ps) && not (contains id m.remove)))
    unfolding append_findings
    append_findings-seen [] st id v = ground arith
    append_findings-seen (p ∷ ps) st id v =
        append_findings-seen ps (append_finding m st p) id (append_finding-Inv st p v)
        ∙ rw (append_finding-seen st p id v.same) (ground (arith, eq_iff (start p).finding_id id))

  abbrev fresh : Heap C → Aligning C
  fresh heap = record { heap = heap; seen = []; unique = [] }

  -- The stage never fails, changes the heap and the output alone, and no finding's id, tool or place. No id stands twice in its
  -- output, and an id is in it exactly if a finding of the two lists has it and it is no duplicate,
  -- that is, no member of a group of two or more other than the group's primary.
  pub dedup_stage_lem :
      (ctx : FusionContext C)
      → (out : FusionContext C) × (dedup_stage ctx ≡ done out)
        × (out ≡ record ctx { heap = out.heap; fused_findings = out.fused_findings })
        × Same out.heap ctx.heap
        × Distinct (ids ctx.heap out.fused_findings)
        × ((id : String)
            → contains id (ids ctx.heap out.fused_findings) ≡ (
                (contains id (ids ctx.heap ctx.filtered_sast)
                  || contains id (ids ctx.heap ctx.filtered_ai))
                && not (is_duplicate ctx.groups id)))
  unfolding dedup_stage
  dedup_stage_lem ctx =
      let m = mark_groups ctx.groups (record { group_of = []; remove = []; counter = 0 }) in
      let first = append_findings m ctx.filtered_sast (fresh ctx.heap) in
      let last = append_findings m ctx.filtered_ai first in
      let v0 : Inv ctx.heap (fresh ctx.heap) = record {
        same = Same-refl ctx.heap;
        listed = refl;
        distinct = tt;
      } in
      let v1 = append_findings-Inv ctx.heap m ctx.filtered_sast (fresh ctx.heap) v0 in
      let v2 = append_findings-Inv ctx.heap m ctx.filtered_ai first v1 in
      (
        record ctx { heap = last.heap; fused_findings = last.unique },
        refl,
        refl,
        v2.same,
        rw v2.listed v2.distinct,
        λ id.
            ap (contains id) v2.listed
            ∙ append_findings-seen ctx.heap m ctx.filtered_ai first id v1
            ∙ rw
                (
                  append_findings-seen ctx.heap m ctx.filtered_sast (fresh ctx.heap) id v0,
                  mark_groups-remove ctx.groups _ id,
                )
                (ground arith),
      )
