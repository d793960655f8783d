-- ===== src/Patches.antt =====
-- engine/services/runtime-service/internal/service/fixretry.go: the patches of findings. The findings
-- of an analysis get their patches in one round and the patches that do not validate a second one.
-- A round, the sandbox that answers a request, and `NormalizeDiffPatch` are parameters. The log is left
-- out.
pub mod Quality
use df_code_audit.Prelude.{
  ℕ, zero, suc, String, Bool, true, false, Option, none, some, List, [], ◌∷◌, if◌then◌else◌,
}
use df_code_audit.Prelude.Text.{Bytes, trim_space, is_empty}

pub record Finding : Type 0 where
  pub title : String
  pub file_path : String
  pub start_line : ℕ
  pub fix_suggestion : String
  pub diff_patch : Bytes

-- An index is an int of the model's answer, and may be negative.
pub data Index : Type 0 where
  negative : Index
  at : ℕ → Index

pub record PatchFix : Type 0 where
  pub index : Index
  pub diff_patch : Bytes

-- An item of the first request, and one of the second with the patch and the error.
pub record Item : Type 0 where
  pub index : ℕ
  pub title : String
  pub file_path : String
  pub start_line : ℕ
  pub fix_suggestion : String

pub record FailedItem : Type 0 where
  pub index : ℕ
  pub title : String
  pub file : String
  pub start_line : ℕ
  pub bad_patch : Bytes
  pub validation_error : String

pub data Checked : Type 0 where
  normalized : Bytes → Checked
  invalid : String → Checked

-- `findings[i].DiffPatch = patch`, nothing out of range.
unfoldable pub place : ℕ → Bytes → List Finding → List Finding
place i patch [] = []
place zero patch (f ∷ fs) = record f { diff_patch = patch } ∷ fs
place (suc i) patch (f ∷ fs) = f ∷ place i patch fs

unfoldable pub place_at : Index → Bytes → List Finding → List Finding
unfolding place
place_at negative patch fs = fs
place_at (at i) patch fs = place i patch fs

unfoldable pub items : ℕ → List Finding → List Item
items i [] = []
items i (f ∷ fs) =
    record {
      index = i;
      title = f.title;
      file_path = f.file_path;
      start_line = f.start_line;
      fix_suggestion = f.fix_suggestion;
    }
    ∷ items (suc i) fs

module _ (normalize : Bytes → Checked) where
  -- A valid patch is written in its normal form, another one as it came.
  abbrev pub patch_of : Bytes → Checked → Bytes
  patch_of raw (normalized patch) = patch
  patch_of raw (invalid e) = raw

  unfoldable pub merge_fix : PatchFix → List Finding → List Finding
  unfolding place_at
  merge_fix fix fs =
      if is_empty (trim_space fix.diff_patch)
      then fs
      else place_at fix.index (patch_of fix.diff_patch (normalize fix.diff_patch)) fs

  unfoldable pub merge_fixes : List PatchFix → List Finding → List Finding
  unfolding merge_fix
  merge_fixes [] fs = fs
  merge_fixes (fix ∷ fixes) fs = merge_fixes fixes (merge_fix fix fs)

  unfoldable pub merged : Option (List PatchFix) → List Finding → List Finding
  unfolding merge_fixes
  merged none fs = fs
  merged (some fixes) fs = merge_fixes fixes fs

  -- `round` gives the fixes for the items, or fails.
  unfoldable pub apply_patch_phase :
      (List Item → Option (List PatchFix)) → List Finding → List Finding
  unfolding merged items
  apply_patch_phase round [] = []
  apply_patch_phase round (f ∷ fs) = merged (round (items 0 (f ∷ fs))) (f ∷ fs)

  -- The findings whose patch is there and does not validate.
  unfoldable pub failure : ℕ → Finding → Checked → List FailedItem → List FailedItem
  failure i f (normalized patch) rest = rest
  failure i f (invalid e) rest =
      record {
        index = i;
        title = f.title;
        file = f.file_path;
        start_line = f.start_line;
        bad_patch = f.diff_patch;
        validation_error = e;
      }
      ∷ rest

  unfoldable pub failures : ℕ → List Finding → List FailedItem
  unfolding failure
  failures i [] = []
  failures i (f ∷ fs) =
      let rest = failures (suc i) fs in
      if is_empty (trim_space f.diff_patch)
      then rest
      else failure i f (normalize (trim_space f.diff_patch)) rest

  unfoldable pub replace_checked : Index → Checked → List Finding → List Finding
  replace_checked i (invalid e) fs = fs
  replace_checked i (normalized patch) fs = place_at i patch fs

  unfoldable pub replace_fixes : List PatchFix → List Finding → List Finding
  unfolding replace_checked
  replace_fixes [] fs = fs
  replace_fixes (fix ∷ fixes) fs =
      replace_fixes fixes (replace_checked fix.index (normalize fix.diff_patch) fs)

  unfoldable pub replaced : Option (List PatchFix) → List Finding → List Finding
  unfolding replace_fixes
  replaced none fs = fs
  replaced (some fixes) fs = replace_fixes fixes fs

  -- No round where nothing failed.
  unfoldable pub retry_of :
      (List FailedItem → Option (List PatchFix)) → List FailedItem → List Finding → List Finding
  unfolding replaced
  retry_of round [] fs = fs
  retry_of round (item ∷ rest) fs = replaced (round (item ∷ rest)) fs

  unfoldable pub retry_failed_patches :
      (List FailedItem → Option (List PatchFix)) → List Finding → List Finding
  unfolding retry_of failures
  retry_failed_patches round fs = retry_of round (failures 0 fs) fs
