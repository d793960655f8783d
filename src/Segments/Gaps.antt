-- ===== src/Segments/Gaps.antt =====
-- Groups of one file lie apart.
use df_code_audit.Prelude.{
  ℕ, ◌+◌, ◌^◌, ◌≤◌, ◌<◌, true, false, ◌≡◌, List, [], ◌∷◌, ◌++◌, if◌then◌else◌, ltb, arith, inl, inr,
  Bool-cases, All, All-append, All-weaken,
}
use df_code_audit.Segments.{
  Located, SegmentGroup, before, insert_sorted, sort_onto, sort_stable, joins, flush, sweep,
  sweep_file, seg_end,
}

-- The starts do not go down.
abbrev Ascending : List Located → Type 0
Ascending [] = Unit
Ascending (f ∷ fs) = All (λ g. f.start_line ≤ g.start_line) fs × Ascending fs

insert_sorted-All :
    (P : Located → Type 0) (f : Located) (gs : List Located)
    → P f
    → All P gs
    → All P (insert_sorted f gs)
unfolding insert_sorted
insert_sorted-All P f [] e a = (e, tt)
insert_sorted-All P f (g ∷ gs) e a = elim (Bool-cases (before f g)) [
  | inl t ↦ rw (t, insert_sorted) (e, a)
  | inr t ↦ rw (t, insert_sorted) (a.0, insert_sorted-All P f gs e a.1)
]

before_le : (f g : Located) → before f g ≡ true → f.start_line ≤ g.start_line
before_le f g e = ground arith

not_before_le : (f g : Located) → before f g ≡ false → g.start_line ≤ f.start_line
not_before_le f g e = ground arith

insert_sorted-Ascending :
    (f : Located) (gs : List Located) → Ascending gs → Ascending (insert_sorted f gs)
unfolding insert_sorted
insert_sorted-Ascending f [] a = (tt, tt)
insert_sorted-Ascending f (g ∷ gs) a = elim (Bool-cases (before f g)) [
  | inl t ↦
      rw (t, insert_sorted)
        ((before_le f g t, All-weaken _ _ gs (λ h le. omega (arith, before_le f g t, le)) a.0), a)
  | inr t ↦
      rw (t, insert_sorted)
        (
          insert_sorted-All (λ h. g.start_line ≤ h.start_line) f gs (not_before_le f g t) a.0,
          insert_sorted-Ascending f gs a.1,
        )
]

sort_onto-Ascending :
    (sorted fs : List Located) → Ascending sorted → Ascending (sort_onto sorted fs)
unfolding sort_onto
sort_onto-Ascending sorted [] a = a
sort_onto-Ascending sorted (f ∷ fs) a =
    sort_onto-Ascending (insert_sorted f sorted) fs (insert_sorted-Ascending f sorted a)

sort_onto-All :
    (P : Located → Type 0) (sorted fs : List Located)
    → All P sorted
    → All P fs
    → All P (sort_onto sorted fs)
unfolding sort_onto
sort_onto-All P sorted [] a b = a
sort_onto-All P sorted (f ∷ fs) a b =
    sort_onto-All P (insert_sorted f sorted) fs (insert_sorted-All P f sorted b.0 a) b.1

-- What holds of all findings holds of all members.
sweep-All :
    (P : Located → Type 0) (first : Located) (more : List Located) (cur_end : ℕ) (fs : List Located)
    → All P (first ∷ more)
    → All P fs
    → All (λ (g : SegmentGroup). All P g.members) (sweep first more cur_end fs)
unfolding sweep flush
sweep-All P first more cur_end [] a b = (a, tt)
sweep-All P first more cur_end (f ∷ fs) a b = elim (Bool-cases (joins f.start_line cur_end)) [
  | inl e ↦
      rw (e, sweep)
        (sweep-All P first (more ++ f ∷ []) _ fs (a.0, All-append P more (f ∷ []) a.1 (b.0, tt))
          b.1)
  | inr e ↦ rw (e, sweep) (a, sweep-All P f [] (seg_end f) fs (b.0, tt) b.1)
]

-- A finding whose end leaves room in an int32 for the radius.
abbrev pub InRange : Located → Type 0
InRange f = (seg_end f + 2 < 2 ^ 31)

-- Each member of the group ends more than the radius before each member of a later group.
abbrev pub Apart : List SegmentGroup → Type 0
Apart [] = Unit
Apart (g ∷ gs) =
    All
      (λ (h : SegmentGroup).
        All (λ (later : Located). All (λ (f : Located). seg_end f + 2 < later.start_line) g.members)
          h.members)
      gs
    × Apart gs

start_below : (f : Located) → f.start_line ≤ seg_end f
start_below f = ground arith

gap : (s cur_end : ℕ) → cur_end + 2 < 2 ^ 31 → joins s cur_end ≡ false → cur_end + 2 < s
gap s cur_end r e = ground arith

-- The end that the sweep keeps is not before that of a member.
abbrev Bounded : ℕ → List Located → Type 0
Bounded cur_end = All (λ f. seg_end f ≤ cur_end)

later_apart :
    (members : List Located) (cur_end : ℕ) (later : Located)
    → Bounded cur_end members
    → cur_end + 2 < later.start_line
    → All (λ (f : Located). seg_end f + 2 < later.start_line) members
later_apart members cur_end later b h = All-weaken _ _ members (λ f le. omega (arith, le, h)) b

range_max :
    (cur_end : ℕ) (f : Located)
    → cur_end + 2 < 2 ^ 31
    → InRange f
    → (if ltb cur_end (seg_end f) then seg_end f else cur_end) + 2 < 2 ^ 31
range_max cur_end f r i = elim (Bool-cases (ltb cur_end (seg_end f))) [
  | inl e ↦ rw e i
  | inr e ↦ rw e r
]

max_bound : (e x y : ℕ) → e ≤ x → e ≤ (if ltb x y then y else x)
max_bound e x y h = ground arith

max_new : (x y : ℕ) → y ≤ (if ltb x y then y else x)
max_new x y = ground arith

Bounded-longer :
    (cur_end : ℕ) (first : Located) (more : List Located) (f : Located)
    → Bounded cur_end (first ∷ more)
    → Bounded (if ltb cur_end (seg_end f) then seg_end f else cur_end) (first ∷ (more ++ f ∷ []))
Bounded-longer cur_end first more f b =
    All-append _ (first ∷ more) (f ∷ [])
      (All-weaken _ _ (first ∷ more) (λ m le. max_bound (seg_end m) cur_end (seg_end f) le) b)
      (max_new cur_end (seg_end f), tt)

-- After a gap, all later groups lie apart from the current one.
flush-Apart :
    (first f : Located) (more fs : List Located) (cur_end : ℕ)
    → Bounded cur_end (first ∷ more)
    → cur_end + 2 < f.start_line
    → All (λ g. f.start_line ≤ g.start_line) fs
    → All
        (λ (h : SegmentGroup).
          All
            (λ (later : Located).
              All (λ (m : Located). seg_end m + 2 < later.start_line) (first ∷ more))
            h.members)
        (sweep f [] (seg_end f) fs)
flush-Apart first f more fs cur_end b h up =
    sweep-All _ f [] (seg_end f) fs (later_apart (first ∷ more) cur_end f b h, tt)
      (All-weaken _ _ fs
        (λ later le. later_apart (first ∷ more) cur_end later b (omega (arith, le, h))) up)

sweep-Apart :
    (first : Located) (more : List Located) (cur_end : ℕ) (fs : List Located)
    → Bounded cur_end (first ∷ more)
    → cur_end + 2 < 2 ^ 31
    → Ascending fs
    → All InRange fs
    → Apart (sweep first more cur_end fs)
unfolding sweep flush
sweep-Apart first more cur_end [] b r up i = (tt, tt)
sweep-Apart first more cur_end (f ∷ fs) b r up i = elim (Bool-cases (joins f.start_line cur_end)) [
  | inl e ↦
      rw (e, sweep)
        (sweep-Apart first (more ++ f ∷ []) _ fs (Bounded-longer cur_end first more f b)
          (range_max cur_end f r i.0) up.1 i.1)
  | inr e ↦
      rw (e, sweep)
        (
          flush-Apart first f more fs cur_end b (gap f.start_line cur_end r e) up.0,
          sweep-Apart f [] (seg_end f) fs (omega arith, tt) i.0 up.1 i.1,
        )
]

swept : (fs : List Located) → Ascending fs → All InRange fs → Apart (sweep_file fs)
unfolding sweep_file
swept [] up i = tt
swept (f ∷ fs) up i = sweep-Apart f [] (seg_end f) fs (omega arith, tt) i.0 up.1 i.1

-- In one file whose lines leave room in an int32, the groups lie apart: each member of a group ends
-- more than two lines before each member of a later group. So no two groups could have been one.
pub sweep_file-Apart : (fs : List Located) → All InRange fs → Apart (sweep_file (sort_stable fs))
unfolding sort_stable
sweep_file-Apart fs i =
    swept (sort_onto [] fs) (sort_onto-Ascending [] fs tt) (sort_onto-All InRange [] fs tt i)
