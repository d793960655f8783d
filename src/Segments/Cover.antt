-- ===== src/Segments/Cover.antt =====
-- Every finding is in one group, once.
use df_code_audit.Prelude.{
  ℕ, ◌+◌, String, Bool, ◌≡◌, refl, ◌∙◌, List, [], ◌∷◌, ◌++◌, if◌then◌else◌, ltb, count_if, arith,
  inl, inr, Bool-cases,
}
use df_code_audit.Prelude.Eq.{beq, String_eq}
use df_code_audit.Prelude.Dict.{Dict, lookup, insert}
use df_code_audit.Segments.{
  Located, SegmentGroup, before, insert_sorted, sort_onto, sort_stable, or_none, by_file, unlocated,
  joins, flush, sweep, sweep_file, sweep_files, group_segments, seg_end,
}

module _ (p : Located → Bool) where
  count-append : (xs ys : List Located) → count_if p (xs ++ ys) ≡ count_if p xs + count_if p ys
  count-append [] ys = omega arith
  count-append (x ∷ xs) ys = ground (arith, count-append xs ys)

  count-insert_sorted :
      (f : Located) (gs : List Located) → count_if p (insert_sorted f gs) ≡ count_if p (f ∷ gs)
  unfolding insert_sorted
  count-insert_sorted f [] = refl
  count-insert_sorted f (g ∷ gs) = elim (Bool-cases (before f g)) [
    | inl e ↦ rw (e, insert_sorted) refl
    | inr e ↦ rw (e, insert_sorted) (ground (arith, count-insert_sorted f gs))
  ]

  count-sort_onto :
      (sorted fs : List Located)
      → count_if p (sort_onto sorted fs) ≡ count_if p sorted + count_if p fs
  unfolding sort_onto
  count-sort_onto sorted [] = omega arith
  count-sort_onto sorted (f ∷ fs) =
      ground (arith, count-sort_onto (insert_sorted f sorted) fs, count-insert_sorted f sorted)

  -- The members of all groups that pass a test.
  abbrev pub count_members : List SegmentGroup → ℕ
  count_members [] = 0
  count_members (g ∷ gs) = count_if p g.members + count_members gs

  count_members-append :
      (gs hs : List SegmentGroup) → count_members (gs ++ hs) ≡ count_members gs + count_members hs
  count_members-append [] hs = omega arith
  count_members-append (g ∷ gs) hs = ground (arith, count_members-append gs hs)

  count-sweep :
      (first : Located) (more : List Located) (cur_end : ℕ) (fs : List Located)
      → count_members (sweep first more cur_end fs) ≡ count_if p (first ∷ more) + count_if p fs
  unfolding sweep flush
  count-sweep first more cur_end [] = ground arith
  count-sweep first more cur_end (f ∷ fs) = elim (Bool-cases (joins f.start_line cur_end)) [
    | inl e ↦
        rw (e, sweep)
          (ground (
            arith,
            count-sweep first (more ++ f ∷ [])
                (if ltb cur_end (seg_end f) then seg_end f else cur_end) fs,
            count-append more (f ∷ []),
          ))
    | inr e ↦ rw (e, sweep) (ground (arith, count-sweep f [] (seg_end f) fs))
  ]

  count-sweep_file : (fs : List Located) → count_members (sweep_file fs) ≡ count_if p fs
  unfolding sweep_file
  count-sweep_file [] = refl
  count-sweep_file (f ∷ fs) = ground (arith, count-sweep f [] (seg_end f) fs)

  abbrev count_entries : Dict String (List Located) → ℕ
  count_entries [] = 0
  count_entries ((path, fs) ∷ m) = count_if p fs + count_entries m

  count-sweep_files :
      (m : Dict String (List Located)) → count_members (sweep_files m) ≡ count_entries m
  unfolding sweep_files sort_stable
  count-sweep_files [] = refl
  count-sweep_files ((path, fs) ∷ m) =
      count_members-append (sweep_file (sort_stable fs)) (sweep_files m)
      ∙ ground
          (arith, count-sweep_file (sort_stable fs), count-sort_onto [] fs, count-sweep_files m)

  -- The entry of a path is replaced.
  count-insert :
      (path : String) (gs : List Located) (m : Dict String (List Located))
      → count_entries (insert path gs m) + count_if p (or_none (lookup path m))
        ≡ count_entries m + count_if p gs
  unfolding insert lookup
  count-insert path gs [] = ground arith
  count-insert path gs ((other, fs) ∷ m) = elim (Bool-cases (beq other path)) [
    | inl e ↦ rw (e, insert, lookup) (ground arith)
    | inr e ↦ rw (e, insert, lookup) (omega (arith, count-insert path gs m))
  ]

  count-by_file :
      (fs : List Located) (m : Dict String (List Located))
      → count_entries (by_file fs m) + count_members (unlocated fs)
        ≡ count_entries m + count_if p fs
  unfolding by_file unlocated
  count-by_file [] m = omega arith
  count-by_file (f ∷ fs) m = elim (Bool-cases (beq f.path "")) [
    | inl e ↦ rw (e, by_file, unlocated) (ground (arith, count-by_file fs m))
    | inr e ↦
        rw (e, by_file, unlocated)
          (ground (
            arith,
            count-by_file fs (insert f.path (or_none (lookup f.path m) ++ f ∷ []) m),
            count-insert f.path (or_none (lookup f.path m) ++ f ∷ []) m,
            count-append (or_none (lookup f.path m)) (f ∷ []),
          ))
  ]

-- The members of the groups are the findings, each in one group and as often as it is given: every test
-- holds of as many members as findings.
pub group_segments-cover :
    (p : Located → Bool) (findings : List Located)
    → count_members p (group_segments findings) ≡ count_if p findings
unfolding group_segments
group_segments-cover p findings =
    count_members-append p (unlocated findings) (sweep_files (by_file findings []))
    ∙ omega (arith, count-sweep_files p (by_file findings []), count-by_file p findings [])
