-- ===== src/Fusion/Merge/Paths.antt =====
-- Which paths of the two sides name one file.
use df_code_audit.Prelude.{true, ◌≡◌, ◌↔◌, ◌⊎◌, inl, inr, ◌∷◌, ◌++◌, arith, Bool-cases}
use df_code_audit.Prelude.Text.{Bytes, bytes_beq, bytes_beq_iff, has_suffix_iff}
use df_code_audit.Fusion.Merge.{normalize_rel_path, same_vuln_file}

-- Two paths name one file exactly if, normalized, they are equal or the AI's path is the end of the
-- SAST path that follows a directory and a slash.
pub same_vuln_file_iff :
    (sast ai : Bytes)
    → (same_vuln_file sast ai ≡ true) ↔ (
        (normalize_rel_path sast ≡ normalize_rel_path ai)
        ⊎ ((directory : Bytes) × (normalize_rel_path sast
              ≡ directory ++ (b'/' ∷ normalize_rel_path ai))))
unfolding same_vuln_file
same_vuln_file_iff sast ai =
    let s = normalize_rel_path sast in
    let a = normalize_rel_path ai in
    (
      (λ h. elim (Bool-cases (bytes_beq s a)) [
        | inl e ↦ inl ((bytes_beq_iff s a).0 e)
        | inr e ↦ inr ((has_suffix_iff s (b'/' ∷ a)).0 (ground (arith, e)))
      ]),
      λ c. elim c [
        | inl e ↦ ground (arith, (bytes_beq_iff s a).1 e)
        | inr q ↦ ground (arith, (has_suffix_iff s (b'/' ∷ a)).1 q)
      ],
    )
