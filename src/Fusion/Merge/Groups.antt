-- ===== src/Fusion/Merge/Groups.antt =====
-- The loop of the merge stage against its reading over the unchanged heap.
use mathlib.Core.List.{append-nil, append_assoc}
use df_code_audit.Prelude.{
  ℕ, suc, String, true, ◌≡◌, refl, sym, ap, ◌∙◌, List, [], ◌∷◌, ◌++◌, inl, inr, Bool-cases,
}
use df_code_audit.Prelude.Eq.{contains, String_eq}
use df_code_audit.Fusion.Finding.{
  Heap, Ref, MergeGroup, Same, Same-refl, Same-trans, Same-write, ids-Same,
}
use df_code_audit.Fusion.Merge.{
  Merging, same_place, sast_matches, add_match, add_matches, new_group, merge_found, merge_one,
  merge_all, mark_unique,
}

-- The ids that are in a group.
abbrev pub group_ids : List MergeGroup → List String
group_ids [] = []
group_ids (g ∷ gs) = g.merged_finding_ids ++ group_ids gs

group_ids-append : (gs hs : List MergeGroup) → group_ids (gs ++ hs) ≡ group_ids gs ++ group_ids hs
group_ids-append [] hs = refl
group_ids-append (g ∷ gs) hs =
    ap (λ (r : List String). g.merged_finding_ids ++ r) (group_ids-append gs hs)
    ∙ sym (append_assoc g.merged_finding_ids (group_ids gs) (group_ids hs))

module _ {C : Type 0} where
  add_match-Same : (heap : Heap C) (p : Ref) (id : String) → Same (add_match heap p id) heap
  unfolding add_match
  add_match-Same heap p id = Same-write heap p _ refl refl refl refl

  add_matches-Same :
      (heap : Heap C) (ps : List Ref) (id : String) → Same (add_matches heap ps id) heap
  unfolding add_matches
  add_matches-Same heap [] id = Same-refl heap
  add_matches-Same heap (p ∷ ps) id =
      Same-trans (add_matches-Same (add_match heap p id) ps id) (add_match-Same heap p id)

  pub mark_unique-Same :
      (merged : List String) (ps : List Ref) (heap : Heap C)
      → Same (mark_unique merged ps heap) heap
  unfolding mark_unique
  mark_unique-Same merged [] heap = Same-refl heap
  mark_unique-Same merged (p ∷ ps) heap = elim (Bool-cases (contains (heap p).finding_id merged)) [
    | inl e ↦ rw e (mark_unique-Same merged ps heap)
    | inr e ↦ rw e (
        Same-trans (mark_unique-Same merged ps _)
          (Same-write heap p (record (heap p) { is_unique = true }) refl refl refl refl))
  ]

  merge_found-Same :
      (st : Merging C) (ai : Ref) (matches : List Ref)
      → Same (merge_found st ai matches).heap st.heap
  unfolding merge_found
  merge_found-Same st ai [] = Same-refl st.heap
  merge_found-Same st ai (m ∷ ms) =
      Same-trans (add_match-Same _ ai _) (add_matches-Same st.heap (m ∷ ms) (st.heap ai).finding_id)

  pub merge_all-Same :
      (sast ais : List Ref) (st : Merging C) → Same (merge_all sast ais st).heap st.heap
  unfolding merge_all merge_one
  merge_all-Same sast [] st = Same-refl st.heap
  merge_all-Same sast (ai ∷ ais) st =
      Same-trans (merge_all-Same sast ais (merge_one sast st ai))
        (merge_found-Same st ai (sast_matches st.heap sast ai))

  -- The groups over a heap that does not change: one for each AI finding with a match, numbered in
  -- their order from `suc n` on.
  place_cons : Heap C → ℕ → Ref → List Ref → (ℕ → List MergeGroup) → List MergeGroup
  place_cons heap n ai [] rest = rest n
  place_cons heap n ai (m ∷ ms) rest = new_group heap (suc n) ai m ms ∷ rest (suc n)

  abbrev pub place_groups : Heap C → List Ref → ℕ → List Ref → List MergeGroup
  unfolding place_cons
  place_groups heap sast n [] = []
  place_groups heap sast n (ai ∷ ais) =
      place_cons heap n ai (sast_matches heap sast ai) (λ k. place_groups heap sast k ais)

  same_place-Same :
      (g h : Heap C) → Same g h → (ai p : Ref) → same_place (g ai) (g p) ≡ same_place (h ai) (h p)
  unfolding same_place
  same_place-Same g h s ai p = rw (s.same_line p, s.same_line ai, s.same_path p, s.same_path ai)

  sast_matches-Same :
      (g h : Heap C)
      → Same g h
      → (sast : List Ref) (ai : Ref) → sast_matches g sast ai ≡ sast_matches h sast ai
  unfolding sast_matches
  sast_matches-Same g h s [] ai = refl
  sast_matches-Same g h s (p ∷ sast) ai =
      rw (same_place-Same g h s ai p, sast_matches-Same g h s sast ai)

  new_group-Same :
      (g h : Heap C)
      → Same g h
      → (n : ℕ) (ai m : Ref) (ms : List Ref) → new_group g n ai m ms ≡ new_group h n ai m ms
  unfolding new_group
  new_group-Same g h s n ai m ms = rw (s.same_id ai, s.same_id m, ids-Same s ms)

  merge_found-groups :
      (heap : Heap C) (sast ais : List Ref) (st : Merging C) (ai : Ref) (matches : List Ref)
      → Same st.heap heap
      → ((st' : Merging C)
          → Same st'.heap heap
          → (merge_all sast ais st').groups
            ≡ st'.groups ++ place_groups heap sast st'.group_counter ais)
      → (merge_all sast ais (merge_found st ai matches)).groups
        ≡ st.groups
          ++ place_cons heap st.group_counter ai matches (λ k. place_groups heap sast k ais)
  unfolding merge_found place_cons
  merge_found-groups heap sast ais st ai [] s rest = rest st s
  merge_found-groups heap sast ais st ai (m ∷ ms) s rest =
      rest (merge_found st ai (m ∷ ms)) (Same-trans (merge_found-Same st ai (m ∷ ms)) s)
      ∙ append_assoc st.groups _ _
      ∙ ap
          (λ (group : MergeGroup).
            st.groups ++ (group ∷ place_groups heap sast (suc st.group_counter) ais))
          (new_group-Same st.heap heap s (suc st.group_counter) ai m ms)

  pub merge_all-groups :
      (heap : Heap C) (sast ais : List Ref) (st : Merging C)
      → Same st.heap heap
      → (merge_all sast ais st).groups ≡ st.groups ++ place_groups heap sast st.group_counter ais
  unfolding merge_all merge_one place_cons
  merge_all-groups heap sast [] st s = sym (append-nil st.groups)
  merge_all-groups heap sast (ai ∷ ais) st s =
      merge_found-groups heap sast ais st ai (sast_matches st.heap sast ai) s
        (λ st' s'. merge_all-groups heap sast ais st' s')
      ∙ ap
          (λ (matches : List Ref).
            st.groups
            ++ place_cons heap st.group_counter ai matches (λ k. place_groups heap sast k ais))
          (sast_matches-Same st.heap heap s sast ai)

  merge_found-ids :
      (st : Merging C) (ai : Ref) (matches : List Ref)
      → st.merged_ids ≡ group_ids st.groups
      → (merge_found st ai matches).merged_ids ≡ group_ids (merge_found st ai matches).groups
  unfolding merge_found
  merge_found-ids st ai [] h = h
  merge_found-ids st ai (m ∷ ms) h =
      let group = new_group st.heap (suc st.group_counter) ai m ms in
      ap (λ (r : List String). r ++ group.merged_finding_ids) h
      ∙ sym (
          group_ids-append st.groups (group ∷ [])
          ∙ ap (λ (r : List String). group_ids st.groups ++ r)
              (append-nil group.merged_finding_ids))

  pub merge_all-ids :
      (sast ais : List Ref) (st : Merging C)
      → st.merged_ids ≡ group_ids st.groups
      → (merge_all sast ais st).merged_ids ≡ group_ids (merge_all sast ais st).groups
  unfolding merge_all merge_one
  merge_all-ids sast [] st h = h
  merge_all-ids sast (ai ∷ ais) st h =
      merge_all-ids sast ais (merge_one sast st ai)
        (merge_found-ids st ai (sast_matches st.heap sast ai) h)
