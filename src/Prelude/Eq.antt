-- ===== src/Prelude/Eq.antt =====
-- Decidable equality as an interface; Go's `==` on strings, integers and enumerations.
use Prim.Native.Nat.{ℕ}
use Prim.Native.String.{String}
use mathlib.Core.Path.{◌≡◌, refl}
use mathlib.Core.Logic.{◌↔◌}
use mathlib.Core.Bool.{Bool, true, false, ◌||◌}
use mathlib.Core.List.{List, [], ◌∷◌, ◌++◌}
use native.Mathlib.Omega.{arith}
use text.Mathlib.Text.{◌==◌ as str_eq}
use text.Mathlib.TextEquality.{eq_iff}
use df_code_audit.Prelude.Tests.{◌==◌ as nat_eq, ==_iff}

pub record Eq {ℓ} (A : Type ℓ) : Type ℓ where
  pub beq : A → A → Bool
  pub beq_iff : (a b : A) → (beq a b ≡ true) ↔ (a ≡ b)

abbrev pub beq {ℓ} : {A : Type ℓ} ⦃e : Eq A⦄ → A → A → Bool
beq ⦃e⦄ = e.beq

pub beq_iff {ℓ} : {A : Type ℓ} ⦃e : Eq A⦄ (a b : A) → (e.beq a b ≡ true) ↔ (a ≡ b)
beq_iff ⦃e⦄ = e.beq_iff

instance abbrev pub ℕ_eq : Eq ℕ
ℕ_eq = record { beq = nat_eq; beq_iff = ==_iff }

instance abbrev pub String_eq : Eq String
String_eq = record { beq = str_eq; beq_iff = eq_iff }

-- A Go `map[string]bool` that only ever holds true: the list of its keys.
abbrev pub contains {ℓ} : {A : Type ℓ} ⦃e : Eq A⦄ → A → List A → Bool
contains a [] = false
contains ⦃e⦄ a (x ∷ xs) = e.beq x a || contains a xs

pub contains-append {ℓ} :
    {A : Type ℓ} ⦃e : Eq A⦄ (a : A) (xs ys : List A)
    → contains a (xs ++ ys) ≡ (contains a xs || contains a ys)
contains-append a [] ys = refl
contains-append ⦃e⦄ a (x ∷ xs) ys = ground (arith, contains-append a xs ys)

-- No element stands twice.
abbrev pub Distinct {ℓ} : {A : Type ℓ} ⦃e : Eq A⦄ → List A → Type 0
Distinct [] = Unit
Distinct (x ∷ xs) = (contains x xs ≡ false) × Distinct xs

pub Distinct-snoc {ℓ} :
    {A : Type ℓ} ⦃e : Eq A⦄ (xs : List A) (a : A)
    → contains a xs ≡ false
    → Distinct xs
    → Distinct (xs ++ a ∷ [])
Distinct-snoc [] a h d = (refl, tt)
Distinct-snoc ⦃e⦄ (x ∷ xs) a h d = (
  ground (arith, contains-append x xs (a ∷ []), e.beq_iff a x, e.beq_iff x a, h, d.0),
  Distinct-snoc xs a (ground (arith, h)) d.1,
)
