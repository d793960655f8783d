-- ===== src/Fusion/Dedup.antt =====
-- stage_dedup.go: each group keeps its primary finding; the other members leave the output.
pub mod Output
pub mod Lost
use df_code_audit.Prelude.{
  ℕ, suc, String, Bool, true, false, ◌&&◌, ◌||◌, not, Option, none, some, List, [], ◌∷◌, ◌++◌,
  length, if◌then◌else◌, ltb,
}
use df_code_audit.Prelude.Eq.{beq, contains, String_eq}
use df_code_audit.Prelude.Dict.{Dict, lookup, insert}
use df_code_audit.Prelude.Text.{concat, decimal}
use df_code_audit.Fusion.Finding.{Heap, Ref, UnifiedFinding, MergeGroup, write}
use df_code_audit.Fusion.Context.{FusionContext, StageResult, done}

-- The maps that the first loop fills: finding id to shared group, and the ids to remove.
pub record Marks : Type 0 where
  pub group_of : Dict String String
  pub remove : List String
  pub counter : ℕ

-- Reading a missing key of a `map[string]string` gives "".
abbrev pub or_empty : Option String → String
or_empty none = ""
or_empty (some s) = s

unfoldable pub mark_member : String → String → Marks → String → Marks
mark_member gid primary m id =
    if beq id primary
    then if beq (or_empty (lookup id m.group_of)) ""
      then record m { group_of = insert id gid m.group_of }
      else m
    else record m { group_of = insert id gid m.group_of; remove = m.remove ++ id ∷ [] }

unfoldable pub mark_members : String → String → List String → Marks → Marks
mark_members gid primary [] m = m
mark_members gid primary (id ∷ members) m =
    mark_members gid primary members (mark_member gid primary m id)

-- The primary of a group, and its first member where none is named.
abbrev pub first_or : String → List String → String
first_or primary [] = primary
first_or primary (id ∷ members) = if beq primary "" then id else primary

abbrev pub primary_of : MergeGroup → String
primary_of g = first_or g.primary_finding_id g.merged_finding_ids

unfoldable pub mark_group : Marks → MergeGroup → Marks
mark_group m g =
    if ltb (length g.merged_finding_ids) 2
    then m
    else let n = suc m.counter in
      let gid = if beq g.group_id "" then concat "dedup_" (decimal n) else g.group_id in
      mark_members gid (primary_of g) g.merged_finding_ids (record m { counter = n })

unfoldable pub mark_groups : List MergeGroup → Marks → Marks
mark_groups [] m = m
mark_groups (g ∷ gs) m = mark_groups gs (mark_group m g)

-- The state of `appendF`.
pub record Aligning (C : Type 0) : Type 0 where
  pub heap : Heap C
  pub seen : List String
  pub unique : List Ref

module _ {C : Type 0} where
  -- A finding with no group of its own takes the one that its id has.
  abbrev pub with_group : UnifiedFinding C → Option String → UnifiedFinding C
  with_group f none = f
  with_group f (some gid) = if beq f.dedup_group "" then record f { dedup_group = gid } else f

  unfoldable pub append_finding : Marks → Aligning C → Ref → Aligning C
  append_finding m st p =
      let id = (st.heap p).finding_id in
      if contains id st.seen || contains id m.remove then st else record {
        heap = write st.heap p (with_group (st.heap p) (lookup id m.group_of));
        seen = st.seen ++ id ∷ [];
        unique = st.unique ++ p ∷ [];
      }

  unfoldable pub append_findings : Marks → List Ref → Aligning C → Aligning C
  append_findings m [] st = st
  append_findings m (p ∷ ps) st = append_findings m ps (append_finding m st p)

  unfoldable pub dedup_stage : FusionContext C → StageResult C
  dedup_stage ctx =
      let m = mark_groups ctx.groups (record { group_of = []; remove = []; counter = 0 }) in
      let st = append_findings m ctx.filtered_ai (
        append_findings m ctx.filtered_sast (record { heap = ctx.heap; seen = []; unique = [] })) in
      done (record ctx { heap = st.heap; fused_findings = st.unique })
