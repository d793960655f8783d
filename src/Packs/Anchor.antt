-- ===== src/Packs/Anchor.antt =====
-- The references that count as anchored to a fixed version.
use df_code_audit.Prelude.{
  ℕ, String, Bool, true, false, ◌&&◌, not, ◌≡◌, ◌↔◌, refl, ap, ◌∙◌, Option, none, some, List, [],
  ◌∷◌, ◌++◌, all, arith, inl, inr, Bool-cases, ◌==◌, ==_iff,
}
use df_code_audit.Prelude.Text.{Bytes, codes, is_empty}
use df_code_audit.Packs.{split_before, split_last, is_floating, registered, anchored, anchored_ref}

abbrev pub no_at : Bytes → Bool
no_at = all (λ c. not (c == 64))

abbrev Parts : Bytes → Option (Bytes × Bytes) → Type 0
Parts s none = no_at s ≡ true
Parts s (some (id, version)) = (s ≡ id ++ 64 ∷ version) × (no_at version ≡ true)

split_before-Parts :
    (c : ℕ) (s : Bytes) (o : Option (Bytes × Bytes))
    → Parts s o
    → Parts (c ∷ s) (split_before c s o)
split_before-Parts c s (some (id, version)) p = (ap (λ (r : Bytes). c ∷ r) p.0, p.1)
split_before-Parts c s none p = elim (Bool-cases (c == 64)) [
  | inl t ↦ rw t (ap (λ d. d ∷ s) ((==_iff c 64).0 t), p)
  | inr f ↦ rw f (ground (arith, p))
]

split_last-Parts : (s : Bytes) → Parts s (split_last s)
unfolding split_last
split_last-Parts [] = refl
split_last-Parts (c ∷ s) = split_before-Parts c s (split_last s) (split_last-Parts s)

split_last-none : (s : Bytes) → no_at s ≡ true → split_last s ≡ none
unfolding split_last
split_last-none [] h = refl
split_last-none (c ∷ s) h = rw (split_last-none s (ground (arith, h))) (ground (arith, h))

split_last-append :
    (id version : Bytes)
    → no_at version ≡ true
    → split_last (id ++ 64 ∷ version) ≡ some (id, version)
unfolding split_last
split_last-append [] version h = rw (split_last-none version h) refl
split_last-append (c ∷ id) version h = rw (split_last-append id version h) refl

-- What an anchored reference consists of.
pub record Anchored (ids : Option (List String)) (text : Bytes) : Type 0 where
  pub id : Bytes
  pub version : Bytes
  pub parts : text ≡ id ++ 64 ∷ version
  pub last : no_at version ≡ true
  pub some_id : is_empty id ≡ false
  pub some_version : is_empty version ≡ false
  pub fixed : is_floating version ≡ false
  pub known : registered ids id ≡ true

four :
    (a b c d : Bool)
    → (not a && (not b && (not c && d))) ≡ true
    → (a ≡ false) × (b ≡ false) × (c ≡ false) × (d ≡ true)
four a b c d h = ground arith

no_parts : false ≡ true → ⊥
no_parts h = cc

anchored_sound :
    (ids : Option (List String)) (text : Bytes) (o : Option (Bytes × Bytes))
    → Parts text o
    → anchored ids o ≡ true
    → Anchored ids text
unfolding anchored
anchored_sound ids text none p h = absurd (no_parts h)
anchored_sound ids text (some (i, v)) p h =
    let q = four (is_empty i) (is_empty v) (is_floating v) (registered ids i) h in
    record {
      id = i;
      version = v;
      parts = p.0;
      last = p.1;
      some_id = q.0;
      some_version = q.1;
      fixed = q.2;
      known = q.3;
    }

-- A reference is accepted exactly if it is an id and a version, neither of them empty, around an at
-- sign that is the last one, the version is none of the floating tags in any case of letters, and the id
-- is registered, where there is a registry.
pub anchored_ref_iff :
    (ref : String) (ids : Option (List String))
    → (anchored_ref ref ids ≡ true) ↔ Anchored ids (codes ref)
unfolding anchored_ref anchored
anchored_ref_iff ref ids = (
  λ h. anchored_sound ids (codes ref) (split_last (codes ref)) (split_last-Parts (codes ref)) h,
  λ a.
      ap (λ o. anchored ids o)
        (ap (λ s. split_last s) a.parts ∙ split_last-append a.id a.version a.last)
      ∙ ground (arith, a.some_id, a.some_version, a.fixed, a.known),
)
