-- ===== src/Idempotency/Order.antt =====
-- The order of the ids and its agreement with the entries.
use df_code_audit.Prelude.{
  String, Bool, true, false, ◌&&◌, ◌||◌, not, ◌≡◌, sym, ap, subst, ◌∙◌, Option, none, some, List,
  [], ◌∷◌, arith, inl, inr, Bool-cases,
}
use df_code_audit.Prelude.Eq.{beq, String_eq, contains, Distinct}
use df_code_audit.Prelude.Dict.{Dict, lookup, insert, delete, lookup-insert, lookup-delete}
use text.Mathlib.TextEquality.{eq_iff}
use df_code_audit.Idempotency.{Entry, remove_first}

abbrev pub is_some : {V : Type 0} → Option V → Bool
is_some none = false
is_some (some v) = true

-- The ids of the order are those of the entries.
abbrev pub Agree : List String → Dict String Entry → Type 0
Agree order entries = (k : String) → contains k order ≡ is_some (lookup k entries)

pub contains-remove_first :
    (id k : String) (xs : List String)
    → Distinct xs
    → contains k (remove_first id xs) ≡ (not (beq id k) && contains k xs)
unfolding remove_first
contains-remove_first id k [] d = ground arith
contains-remove_first id k (x ∷ xs) d = elim (Bool-cases (beq x id)) [
  | inl t ↦
      rw (t, remove_first)
        (subst (λ y. contains k xs ≡ (not (beq y k) && (beq x k || contains k xs)))
          ((eq_iff x id).0 t) (ground (arith, eq_iff x k, d.0)))
  | inr f ↦
      rw (f, remove_first)
        (ground (arith, eq_iff x k, eq_iff x id, eq_iff id k, contains-remove_first id k xs d.1, f))
]

pub remove_first-Distinct :
    (id : String) (xs : List String) → Distinct xs → Distinct (remove_first id xs)
unfolding remove_first
remove_first-Distinct id [] d = tt
remove_first-Distinct id (x ∷ xs) d = elim (Bool-cases (beq x id)) [
  | inl t ↦ rw (t, remove_first) d.1
  | inr f ↦
      rw (f, remove_first)
        (ground (arith, contains-remove_first id x xs d.1, d.0), remove_first-Distinct id xs d.1)
]

pub is_some-insert :
    (id k : String) (e : Entry) (m : Dict String Entry)
    → is_some (lookup k (insert id e m)) ≡ (beq id k || is_some (lookup k m))
is_some-insert id k e m = ap (λ o. is_some o) (lookup-insert id k e m) ∙ ground arith

pub is_some-delete :
    (id k : String) (m : Dict String Entry)
    → is_some (lookup k (delete id m)) ≡ (not (beq id k) && is_some (lookup k m))
is_some-delete id k m = ap (λ o. is_some o) (lookup-delete id k m) ∙ ground arith

-- The oldest id goes from both.
pub Agree-tail :
    (x : String) (xs : List String) (m : Dict String Entry)
    → Distinct (x ∷ xs)
    → Agree (x ∷ xs) m
    → Agree xs (delete x m)
Agree-tail x xs m d a k = sym (
    is_some-delete x k m ∙ elim (Bool-cases (beq x k)) [
      | inl t ↦
          subst (λ y. (not (beq x y) && is_some (lookup y m)) ≡ contains y xs) ((eq_iff x k).0 t)
            (ground (arith, eq_iff x x, d.0))
      | inr f ↦ ground (arith, a k, f)
    ])
