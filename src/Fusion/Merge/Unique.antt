-- ===== src/Fusion/Merge/Unique.antt =====
-- The merge stage as a whole: its groups, and which findings it marks as unique.
use df_code_audit.Prelude.{
  String, true, ◌≡◌, refl, ◌∙◌, List, [], ◌∷◌, arith, not, ◌||◌, ◌&&◌, some, inl, inr, length,
  Bool-cases, ==_iff,
}
use df_code_audit.Prelude.Eq.{contains, String_eq, ℕ_eq}
use df_code_audit.Fusion.Finding.{Heap, Ref, write, written, Same, Same-refl, Same-trans}
use df_code_audit.Fusion.Context.{FusionContext, FusionMetrics, done, int32}
use df_code_audit.Fusion.Merge.{
  Merging, sast_matches, add_match, add_matches, merge_found, merge_one, merge_all, mark_unique,
  merge_stage,
}
use df_code_audit.Fusion.Merge.Groups.{
  group_ids, place_groups, mark_unique-Same, merge_all-Same, merge_all-groups, merge_all-ids,
}

module _ {C : Type 0} where
  abbrev SameUnique : Heap C → Heap C → Type 0
  SameUnique g h = (p : Ref) → (g p).is_unique ≡ (h p).is_unique

  add_matches_unique :
      (heap : Heap C) (ps : List Ref) (id : String) → SameUnique (add_matches heap ps id) heap
  unfolding add_matches add_match
  add_matches_unique heap [] id q = refl
  add_matches_unique heap (p ∷ ps) id q =
      add_matches_unique (add_match heap p id) ps id q ∙ written (λ f. f.is_unique) heap p _ refl q

  merge_found_unique :
      (st : Merging C) (ai : Ref) (matches : List Ref)
      → SameUnique (merge_found st ai matches).heap st.heap
  unfolding merge_found add_match
  merge_found_unique st ai [] q = refl
  merge_found_unique st ai (m ∷ ms) q =
      written (λ f. f.is_unique) (add_matches st.heap (m ∷ ms) (st.heap ai).finding_id) ai _ refl q
      ∙ add_matches_unique st.heap (m ∷ ms) (st.heap ai).finding_id q

  merge_all_unique :
      (sast ais : List Ref) (st : Merging C) → SameUnique (merge_all sast ais st).heap st.heap
  unfolding merge_all merge_one
  merge_all_unique sast [] st q = refl
  merge_all_unique sast (ai ∷ ais) st q =
      merge_all_unique sast ais (merge_one sast st ai) q
      ∙ merge_found_unique st ai (sast_matches st.heap sast ai) q

  mark_unique_lem :
      (merged : List String) (ps : List Ref) (heap : Heap C) (p : Ref)
      → (mark_unique merged ps heap p).is_unique
        ≡ ((heap p).is_unique || (contains p ps && not (contains (heap p).finding_id merged)))
  unfolding mark_unique
  mark_unique_lem merged [] heap p = ground arith
  mark_unique_lem merged (q ∷ ps) heap p = elim (Bool-cases (contains (heap q).finding_id merged)) [
    | inl e ↦ rw (e, mark_unique) (ground (arith, mark_unique_lem merged ps heap p, ==_iff q p))
    | inr e ↦
        rw (e, mark_unique)
          (ground (
            arith,
            mark_unique_lem merged ps (write heap q (record (heap q) { is_unique = true })) p,
            ==_iff q p,
          ))
  ]

  -- Marking both lists, over a heap and a set of ids that are those of another.
  mark_both :
      (merged ids : List String) (sast ais : List Ref) (g h : Heap C) (p : Ref)
      → merged ≡ ids
      → (g p).finding_id ≡ (h p).finding_id
      → (g p).is_unique ≡ (h p).is_unique
      → (mark_unique merged ais (mark_unique merged sast g) p).is_unique ≡ (
          (h p).is_unique
          || ((contains p sast || contains p ais) && not (contains (h p).finding_id ids)))
  mark_both merged ids sast ais g h p e same u =
      rw
        (
          mark_unique_lem merged ais (mark_unique merged sast g) p,
          mark_unique_lem merged sast g p,
          (mark_unique-Same merged sast g).same_id p,
          same,
          u,
          e,
        )
        (ground arith)

  abbrev initial : FusionContext C → Merging C
  initial ctx = record { heap = ctx.heap; groups = []; group_counter = 0; merged_ids = [] }

  -- What the stage leaves in the context, written out.
  abbrev after : FusionContext C → FusionMetrics → FusionContext C
  after ctx m =
      let st = merge_all ctx.filtered_sast ctx.filtered_ai (initial ctx) in
      record ctx {
        heap =
            mark_unique st.merged_ids ctx.filtered_ai
              (mark_unique st.merged_ids ctx.filtered_sast st.heap);
        groups = st.groups;
        metrics = some (record m { merged_count = int32 (length st.groups) });
      }

  after-Same : (ctx : FusionContext C) (m : FusionMetrics) → Same (after ctx m).heap ctx.heap
  after-Same ctx m =
      let st = merge_all ctx.filtered_sast ctx.filtered_ai (initial ctx) in
      Same-trans (mark_unique-Same st.merged_ids ctx.filtered_ai _) (
        Same-trans (mark_unique-Same st.merged_ids ctx.filtered_sast st.heap)
          (merge_all-Same ctx.filtered_sast ctx.filtered_ai (initial ctx)))

  after_unique :
      (ctx : FusionContext C) (m : FusionMetrics) (p : Ref)
      → ((after ctx m).heap p).is_unique ≡ (
          (ctx.heap p).is_unique
          || ((contains p ctx.filtered_sast || contains p ctx.filtered_ai)
              && not (contains (ctx.heap p).finding_id (group_ids (after ctx m).groups))))
  after_unique ctx m p =
      let st = merge_all ctx.filtered_sast ctx.filtered_ai (initial ctx) in
      mark_both st.merged_ids (group_ids st.groups) ctx.filtered_sast ctx.filtered_ai st.heap
        ctx.heap p (merge_all-ids ctx.filtered_sast ctx.filtered_ai (initial ctx) refl)
        ((merge_all-Same ctx.filtered_sast ctx.filtered_ai (initial ctx)).same_id p)
        (merge_all_unique ctx.filtered_sast ctx.filtered_ai (initial ctx) p)

  -- On a context with metrics the stage succeeds. Its groups are the ones of the input heap: for
  -- each AI finding with SAST findings at its place one group of its id and theirs, whose primary is
  -- the first of them; their number goes to the metrics, and the rest of the context stays. It keeps
  -- every finding's id, tool and place, and adds to the findings marked as unique exactly those of
  -- the two lists whose ids are in no group.
  pub merge_stage_lem :
      (ctx : FusionContext C) (m : FusionMetrics)
      → ctx.metrics ≡ some m
      → (out : FusionContext C) × (merge_stage ctx ≡ done out)
        × (out.groups ≡ place_groups ctx.heap ctx.filtered_sast 0 ctx.filtered_ai)
        × (out.metrics ≡ some (record m { merged_count = int32 (length out.groups) }))
        × (out ≡ record ctx { heap = out.heap; groups = out.groups; metrics = out.metrics })
        × Same out.heap ctx.heap
        × ((p : Ref)
            → (out.heap p).is_unique ≡ (
                (ctx.heap p).is_unique
                || ((contains p ctx.filtered_sast || contains p ctx.filtered_ai)
                    && not (contains (ctx.heap p).finding_id (group_ids out.groups)))))
  unfolding merge_stage
  merge_stage_lem ctx m h = (
    after ctx m,
    rw h,
    merge_all-groups ctx.heap ctx.filtered_sast ctx.filtered_ai (initial ctx) (Same-refl ctx.heap),
    refl,
    refl,
    after-Same ctx m,
    after_unique ctx m,
  )
