-- ===== src/Segments/Members.antt =====
-- Who represents a group, and what its members have in common.
use df_code_audit.Prelude.{
  ℕ, String, true, false, ◌≡◌, refl, sym, subst, List, [], ◌∷◌, ◌++◌, arith, inl, inr, Bool-cases,
  All, In, All-append,
}
use df_code_audit.Prelude.Eq.{beq, String_eq}
use df_code_audit.Prelude.Dict.{Dict, lookup, insert}
use text.Mathlib.TextEquality.{eq_iff}
use df_code_audit.Segments.{
  Located, SegmentGroup, outranks, pick_from, before, insert_sorted, sort_onto, sort_stable,
  or_none, by_file, unlocated, joins, flush, sweep, sweep_file, sweep_files, group_segments,
  seg_end,
}

-- No finding of the list takes the place of the representative.
abbrev pub Unbeaten : Located → List Located → Type 0
Unbeaten rep = All (λ f. outranks f rep ≡ false)

outranks_trans :
    (f rep best : Located)
    → outranks f rep ≡ true
    → outranks f best ≡ false
    → outranks rep best ≡ false
outranks_trans f rep best a b = ground arith

outranks_below :
    (f rep best : Located)
    → outranks f rep ≡ false
    → outranks rep best ≡ false
    → outranks f best ≡ false
outranks_below f rep best a b = ground arith

pick_from_new :
    (rep f : Located) (fs : List Located)
    → outranks f rep ≡ true
    → pick_from rep (f ∷ fs) ≡ pick_from f fs
unfolding pick_from
pick_from_new rep f fs e = rw e refl

pick_from_old :
    (rep f : Located) (fs : List Located)
    → outranks f rep ≡ false
    → pick_from rep (f ∷ fs) ≡ pick_from rep fs
unfolding pick_from
pick_from_old rep f fs e = rw e refl

pick_from_nil : (rep : Located) → pick_from rep [] ≡ rep
unfolding pick_from
pick_from_nil rep = refl

pick_from-Unbeaten : (rep : Located) (fs : List Located) → Unbeaten (pick_from rep fs) (rep ∷ fs)
pick_from-Unbeaten rep [] = rw (pick_from_nil rep) (ground arith, tt)
pick_from-Unbeaten rep (f ∷ fs) = elim (Bool-cases (outranks f rep)) [
  | inl e ↦
      let (here, rest) = pick_from-Unbeaten f fs in
      subst (λ best. Unbeaten best (rep ∷ f ∷ fs)) (sym (pick_from_new rep f fs e))
        (outranks_trans f rep (pick_from f fs) e here, (here, rest))
  | inr e ↦
      let (here, rest) = pick_from-Unbeaten rep fs in
      subst (λ best. Unbeaten best (rep ∷ f ∷ fs)) (sym (pick_from_old rep f fs e))
        (here, (outranks_below f rep (pick_from rep fs) e here, rest))
]

In-second : (rep f best : Located) (fs : List Located) → In best (rep ∷ fs) → In best (rep ∷ f ∷ fs)
In-second rep f best fs (inl here) = inl here
In-second rep f best fs (inr there) = inr (inr there)

pick_from-In : (rep : Located) (fs : List Located) → In (pick_from rep fs) (rep ∷ fs)
pick_from-In rep [] = inl (sym (pick_from_nil rep))
pick_from-In rep (f ∷ fs) = elim (Bool-cases (outranks f rep)) [
  | inl e ↦
      subst (λ best. In best (rep ∷ f ∷ fs)) (sym (pick_from_new rep f fs e))
        (inr (pick_from-In f fs))
  | inr e ↦
      subst (λ best. In best (rep ∷ f ∷ fs)) (sym (pick_from_old rep f fs e))
        (In-second rep f (pick_from rep fs) fs (pick_from-In rep fs))
]

-- Findings at one path.
abbrev pub At : String → List Located → Type 0
At path = All (λ f. f.path ≡ path)

-- A group as it should be: its representative is one of its members, none of them is more severe or
-- as severe and further up, and all are in one file.
pub record IsProper (g : SegmentGroup) : Type 0 where
  pub rep_In : In g.rep g.members
  pub rep_Unbeaten : Unbeaten g.rep g.members
  pub file : String
  pub one_file : At file g.members

insert_sorted-At :
    (path : String) (f : Located) (gs : List Located)
    → f.path ≡ path
    → At path gs
    → At path (insert_sorted f gs)
unfolding insert_sorted
insert_sorted-At path f [] e a = (e, tt)
insert_sorted-At path f (g ∷ gs) e a = elim (Bool-cases (before f g)) [
  | inl t ↦ rw (t, insert_sorted) (e, a)
  | inr t ↦ rw (t, insert_sorted) (a.0, insert_sorted-At path f gs e a.1)
]

sort_onto-At :
    (path : String) (sorted fs : List Located)
    → At path sorted
    → At path fs
    → At path (sort_onto sorted fs)
unfolding sort_onto
sort_onto-At path sorted [] a b = a
sort_onto-At path sorted (f ∷ fs) a b =
    sort_onto-At path (insert_sorted f sorted) fs (insert_sorted-At path f sorted b.0 a) b.1

flush-IsProper :
    (path : String) (f : Located) (fs : List Located) → At path (f ∷ fs) → IsProper (flush f fs)
unfolding flush
flush-IsProper path f fs a = record {
  rep_In = pick_from-In f fs;
  rep_Unbeaten = pick_from-Unbeaten f fs;
  file = path;
  one_file = a;
}

sweep-IsProper :
    (path : String) (first : Located) (more : List Located) (cur_end : ℕ) (fs : List Located)
    → At path (first ∷ more)
    → At path fs
    → All IsProper (sweep first more cur_end fs)
unfolding sweep
sweep-IsProper path first more cur_end [] a b = (flush-IsProper path first more a, tt)
sweep-IsProper path first more cur_end (f ∷ fs) a b =
    elim (Bool-cases (joins f.start_line cur_end)) [
      | inl e ↦
          rw (e, sweep)
            (sweep-IsProper path first (more ++ f ∷ []) _ fs
              (a.0, All-append _ more (f ∷ []) a.1 (b.0, tt)) b.1)
      | inr e ↦
          rw (e, sweep)
            (
              flush-IsProper path first more a,
              sweep-IsProper path f [] (seg_end f) fs (b.0, tt) b.1,
            )
    ]

sweep_file-IsProper :
    (path : String) (fs : List Located) → At path fs → All IsProper (sweep_file fs)
unfolding sweep_file
sweep_file-IsProper path [] a = tt
sweep_file-IsProper path (f ∷ fs) a = sweep-IsProper path f [] (seg_end f) fs (a.0, tt) a.1

-- Each entry holds findings of its path.
abbrev Sorted : Dict String (List Located) → Type 0
Sorted [] = Unit
Sorted ((path, fs) ∷ m) = At path fs × Sorted m

sweep_files-IsProper : (m : Dict String (List Located)) → Sorted m → All IsProper (sweep_files m)
unfolding sweep_files sort_stable
sweep_files-IsProper [] s = tt
sweep_files-IsProper ((path, fs) ∷ m) s =
    All-append _ (sweep_file (sort_stable fs)) (sweep_files m)
      (sweep_file-IsProper path (sort_stable fs) (sort_onto-At path [] fs tt s.0))
      (sweep_files-IsProper m s.1)

insert-Sorted :
    (path : String) (gs : List Located) (m : Dict String (List Located))
    → At path gs
    → Sorted m
    → Sorted (insert path gs m)
unfolding insert
insert-Sorted path gs [] a s = (a, tt)
insert-Sorted path gs ((other, fs) ∷ m) a s = elim (Bool-cases (beq other path)) [
  | inl e ↦ rw (e, insert) (a, s.1)
  | inr e ↦ rw (e, insert) (s.0, insert-Sorted path gs m a s.1)
]

lookup-At :
    (path : String) (m : Dict String (List Located)) → Sorted m → At path (or_none (lookup path m))
unfolding lookup
lookup-At path [] s = tt
lookup-At path ((other, fs) ∷ m) s = elim (Bool-cases (beq other path)) [
  | inl e ↦ rw (e, lookup) (subst (λ k. At k fs) ((eq_iff other path).0 e) s.0)
  | inr e ↦ rw (e, lookup) (lookup-At path m s.1)
]

by_file-Sorted :
    (fs : List Located) (m : Dict String (List Located)) → Sorted m → Sorted (by_file fs m)
unfolding by_file
by_file-Sorted [] m s = s
by_file-Sorted (f ∷ fs) m s = elim (Bool-cases (beq f.path "")) [
  | inl e ↦ rw (e, by_file) (by_file-Sorted fs m s)
  | inr e ↦
      rw (e, by_file)
        (by_file-Sorted fs _ (
          insert-Sorted f.path _ m
            (All-append _ (or_none (lookup f.path m)) (f ∷ []) (lookup-At f.path m s) (refl, tt))
            s))
]

unlocated-IsProper : (fs : List Located) → All IsProper (unlocated fs)
unfolding unlocated
unlocated-IsProper [] = tt
unlocated-IsProper (f ∷ fs) = elim (Bool-cases (beq f.path "")) [
  | inl e ↦
      rw (e, unlocated)
        (
          record {
            rep_In = inl refl;
            rep_Unbeaten = (ground arith, tt);
            file = f.path;
            one_file = (refl, tt);
          },
          unlocated-IsProper fs,
        )
  | inr e ↦ rw (e, unlocated) (unlocated-IsProper fs)
]

-- Every group is of one file and has for its representative one of its members, such that no member is
-- more severe, or as severe and further up.
pub group_segments-IsProper : (findings : List Located) → All IsProper (group_segments findings)
unfolding group_segments
group_segments-IsProper findings =
    All-append _ (unlocated findings) (sweep_files (by_file findings []))
      (unlocated-IsProper findings)
      (sweep_files-IsProper (by_file findings []) (by_file-Sorted findings [] tt))
