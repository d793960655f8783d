-- ===== src/Patches/Quality.antt =====
-- The two rounds of patches, finding by finding.
use df_code_audit.Prelude.{
  ℕ, zero, suc, ◌+◌, Bool, true, false, ◌≡◌, refl, sym, ap, subst, ◌∙◌, Option, none, some, List,
  [], ◌∷◌, inl, inr, Bool-cases, ◌==◌, if◌then◌else◌, arith,
}
use df_code_audit.Prelude.Text.{Bytes, trim_space, is_empty}
use df_code_audit.Patches.{
  Finding, Index, negative, at, PatchFix, Item, FailedItem, Checked, normalized, invalid, place,
  place_at, items, patch_of, merge_fix, merge_fixes, merged, apply_patch_phase,
}

-- Whether an index names a position.
abbrev pub names : Index → ℕ → Bool
names negative j = false
names (at i) j = i == j

-- The patch at a position after one fix, which may be no offer.
abbrev pub with_offer : Bool → Option Bytes → Bytes → Bytes
with_offer named none old = old
with_offer named (some patch) old = if named then patch else old

-- The last offer for a position, or the patch that is there.
abbrev pub last_offer : (PatchFix → Option Bytes) → List PatchFix → ℕ → Bytes → Bytes
last_offer offer [] j old = old
last_offer offer (fix ∷ fixes) j old =
    last_offer offer fixes j (with_offer (names fix.index j) (offer fix) old)

-- Every finding with the last offer for its position, the first one at `j`, and as it was in all else.
abbrev pub each_patched :
    (PatchFix → Option Bytes) → List PatchFix → ℕ → List Finding → List Finding
each_patched offer fixes j [] = []
each_patched offer fixes j (f ∷ fs) =
    record f { diff_patch = last_offer offer fixes j f.diff_patch }
    ∷ each_patched offer fixes (suc j) fs

-- One offer at one index.
abbrev one_patched : Index → Bytes → ℕ → List Finding → List Finding
one_patched i patch j [] = []
one_patched i patch j (f ∷ fs) =
    record f { diff_patch = with_offer (names i j) (some patch) f.diff_patch }
    ∷ one_patched i patch (suc j) fs

no_offer :
    (offer : PatchFix → Option Bytes) (j : ℕ) (fs : List Finding) → each_patched offer [] j fs ≡ fs
no_offer offer j [] = refl
no_offer offer j (f ∷ fs) = ap (λ gs. f ∷ gs) (no_offer offer (suc j) fs)

plus_zero : (j : ℕ) → j + 0 ≡ j
plus_zero j = omega arith

plus_suc : (j k : ℕ) → j + suc k ≡ suc j + k
plus_suc j k = omega arith

zero_plus : (i : ℕ) → 0 + i ≡ i
zero_plus i = omega arith

unnamed :
    (i : Index) (patch : Bytes) (j : ℕ) (fs : List Finding)
    → ((k : ℕ) → names i (j + k) ≡ false)
    → one_patched i patch j fs ≡ fs
unnamed i patch j [] h = refl
unnamed i patch j (f ∷ fs) h = rw (subst (λ n. names i n ≡ false) (plus_zero j) (h 0)) (
    ap (λ gs. f ∷ gs)
      (unnamed i patch (suc j) fs (λ k. subst (λ n. names i n ≡ false) (plus_suc j k) (h (suc k)))))

zero_named : (j : ℕ) → (j + 0 == j) ≡ true
zero_named j = ground arith

later_named : (i j : ℕ) → (j + suc i == j) ≡ false
later_named i j = ground arith

place-one_patched :
    (i j : ℕ) (patch : Bytes) (fs : List Finding)
    → place i patch fs ≡ one_patched (at (j + i)) patch j fs
unfolding place
place-one_patched i j patch [] = refl
place-one_patched zero j patch (f ∷ fs) = rw (zero_named j) (
    ap (λ gs. record f { diff_patch = patch } ∷ gs)
      (sym (unnamed (at (j + 0)) patch (suc j) fs (λ k. ground arith))))
place-one_patched (suc i) j patch (f ∷ fs) = rw (later_named i j) (
    ap (λ gs. f ∷ gs)
      (place-one_patched i (suc j) patch fs
        ∙ ap (λ n. one_patched (at n) patch (suc j) fs) (omega arith)))

place_at-one_patched :
    (i : Index) (patch : Bytes) (fs : List Finding) → place_at i patch fs ≡ one_patched i patch 0 fs
unfolding place_at
place_at-one_patched negative patch fs = sym (unnamed negative patch 0 fs (λ k. refl))
place_at-one_patched (at i) patch fs =
    place-one_patched i 0 patch fs ∙ ap (λ n. one_patched (at n) patch 0 fs) (zero_plus i)

-- An offer and the later ones together.
then_offers :
    (offer : PatchFix → Option Bytes) (fix : PatchFix) (fixes : List PatchFix) (patch : Bytes)
    (j : ℕ) (fs : List Finding)
    → offer fix ≡ some patch
    → each_patched offer fixes j (one_patched fix.index patch j fs)
      ≡ each_patched offer (fix ∷ fixes) j fs
then_offers offer fix fixes patch j [] h = refl
then_offers offer fix fixes patch j (f ∷ fs) h = rw h (
    ap
      (λ gs.
        record f {
          diff_patch =
              last_offer offer fixes j (with_offer (names fix.index j) (some patch) f.diff_patch);
        }
        ∷ gs)
      (then_offers offer fix fixes patch (suc j) fs h))

skips_offer :
    (offer : PatchFix → Option Bytes) (fix : PatchFix) (fixes : List PatchFix) (j : ℕ)
    (fs : List Finding)
    → offer fix ≡ none
    → each_patched offer fixes j fs ≡ each_patched offer (fix ∷ fixes) j fs
skips_offer offer fix fixes j [] h = refl
skips_offer offer fix fixes j (f ∷ fs) h = rw h (
    ap (λ gs. record f { diff_patch = last_offer offer fixes j f.diff_patch } ∷ gs)
      (skips_offer offer fix fixes (suc j) fs h))

module _ (normalize : Bytes → Checked) where
  -- The first round takes every fix that is not blank, in its normal form where it validates.
  abbrev pub any_offer : PatchFix → Option Bytes
  any_offer fix =
      if is_empty (trim_space fix.diff_patch)
      then none
      else some (patch_of normalize fix.diff_patch (normalize fix.diff_patch))

  abbrev if_valid : Checked → Option Bytes
  if_valid (invalid e) = none
  if_valid (normalized patch) = some patch

  -- The second round takes the fixes that validate, in their normal form.
  abbrev pub valid_offer : PatchFix → Option Bytes
  valid_offer fix = if_valid (normalize fix.diff_patch)

  -- What the fixes of a round do, none of them where the round failed.
  abbrev pub given : Option (List PatchFix) → List PatchFix
  given none = []
  given (some fixes) = fixes

  merge_fixes-each_patched :
      (fixes : List PatchFix) (fs : List Finding)
      → merge_fixes normalize fixes fs ≡ each_patched any_offer fixes 0 fs
  unfolding merge_fixes merge_fix
  merge_fixes-each_patched [] fs = sym (no_offer any_offer 0 fs)
  merge_fixes-each_patched (fix ∷ fixes) fs =
      elim (Bool-cases (is_empty (trim_space fix.diff_patch))) [
        | inl t ↦
            rw (t, merge_fix) (merge_fixes-each_patched fixes fs)
            ∙ skips_offer any_offer fix fixes 0 fs (rw t refl)
        | inr n ↦
            let patch = patch_of normalize fix.diff_patch (normalize fix.diff_patch) in
            rw (n, merge_fix)
              (merge_fixes-each_patched fixes (place_at fix.index patch fs)
                ∙ ap (each_patched any_offer fixes 0) (place_at-one_patched fix.index patch fs))
            ∙ then_offers any_offer fix fixes patch 0 fs (rw n refl)
      ]

  merged-each_patched :
      (o : Option (List PatchFix)) (fs : List Finding)
      → merged normalize o fs ≡ each_patched any_offer (given o) 0 fs
  unfolding merged
  merged-each_patched none fs = sym (no_offer any_offer 0 fs)
  merged-each_patched (some fixes) fs = merge_fixes-each_patched fixes fs

  -- After the first round every finding is as it was but for its patch, and that is the last one that a
  -- fix of the round with the finding's index offers, or the one it had: a blank fix is no offer, one
  -- that validates is taken in its normal form and any other as it came. A round that fails offers nothing.
  pub apply_patch_phase-each_patched :
      (round : List Item → Option (List PatchFix)) (fs : List Finding)
      → apply_patch_phase normalize round fs
        ≡ each_patched any_offer (given (round (items 0 fs))) 0 fs
  unfolding apply_patch_phase
  apply_patch_phase-each_patched round [] = refl
  apply_patch_phase-each_patched round (f ∷ fs) =
      merged-each_patched (round (items 0 (f ∷ fs))) (f ∷ fs)

  -- The fixes of the second round, which does not take place where nothing failed.
  abbrev pub second : (List FailedItem → Option (List PatchFix)) → List FailedItem → List PatchFix
  second round [] = []
  second round (item ∷ rest) = given (round (item ∷ rest))
