-- ===== src/Session/Access.antt =====
-- What the sandbox lets through.
use df_code_audit.Prelude.{
  Bool, true, false, ◌≡◌, ◌↔◌, refl, sym, ap, subst, ◌∙◌, String, List, [], ◌∷◌, ◌++◌, any, All,
  arith, inl, inr, In, Bool-cases, ==_iff,
}
use df_code_audit.Prelude.Text.{Bytes, codes, has_prefix, has_part, has_prefix_append}
use df_code_audit.Session.{
  dangerous_commands, allowed_prefixes, is_out_of_bounds, validate_sandbox_access,
}

any-In :
    (f : String → Bool) (xs : List String) (a : String) → In a xs → f a ≡ true → any f xs ≡ true
any-In f [] a i e = absurd i
any-In f (x ∷ xs) a (inl h) e = rw h (ground (arith, e))
any-In f (x ∷ xs) a (inr i) e = ground (arith, any-In f xs a i e)

false-true : false ≡ true → ⊥
false-true e = cc

In-any :
    (f : String → Bool) (xs : List String) → any f xs ≡ true → (a : String) × In a xs × (f a ≡ true)
In-any f [] e = absurd (false-true e)
In-any f (x ∷ xs) e = elim (Bool-cases (f x)) [
  | inl t ↦ (x, inl refl, t)
  | inr n ↦ let (a, i, t) = In-any f xs (ground (arith, e, n)) in (a, inr i, t)
]

-- A text begins with another.
abbrev pub Begins : Bytes → Bytes → Type 0
Begins s t = (rest : Bytes) × (s ≡ t ++ rest)

has_prefix-Begins : (s t : Bytes) → has_prefix s t ≡ true → Begins s t
unfolding has_prefix
has_prefix-Begins s [] h = (s, refl)
has_prefix-Begins [] (d ∷ t) h = absurd (false-true h)
has_prefix-Begins (c ∷ s) (d ∷ t) h =
    let (rest, e) = has_prefix-Begins s t (ground (arith, h)) in
    (rest, rw ((==_iff c d).0 (ground (arith, h))) (ap (λ u. d ∷ u) e))

Begins-has_prefix : (s t : Bytes) → Begins s t → has_prefix s t ≡ true
Begins-has_prefix s t (rest, e) =
    subst (λ u. has_prefix u t ≡ true) (sym e) (has_prefix_append t rest)

-- A text has another as a part.
abbrev pub Contains : Bytes → Bytes → Type 0
Contains s t = (front : Bytes) × (rest : Bytes) × (s ≡ front ++ t ++ rest)

has_part-Contains : (s t : Bytes) → has_part s t ≡ true → Contains s t
unfolding has_part
has_part-Contains [] t h = let (rest, e) = has_prefix-Begins [] t h in ([], rest, e)
has_part-Contains (c ∷ s) t h = elim (Bool-cases (has_prefix (c ∷ s) t)) [
  | inl p ↦ let (rest, e) = has_prefix-Begins (c ∷ s) t p in ([], rest, e)
  | inr n ↦
      let (front, rest, e) = has_part-Contains s t (ground (arith, h, n)) in
      (c ∷ front, rest, ap (λ u. c ∷ u) e)
]

begins_part : (s t : Bytes) → has_prefix s t ≡ true → has_part s t ≡ true
unfolding has_part
begins_part [] t h = h
begins_part (c ∷ s) t h = rw h refl

part_append : (front t rest : Bytes) → has_part (front ++ t ++ rest) t ≡ true
unfolding has_part
part_append [] t rest = begins_part (t ++ rest) t (has_prefix_append t rest)
part_append (c ∷ front) t rest = ground (arith, part_append front t rest)

Contains-has_part : (s t : Bytes) → Contains s t → has_part s t ≡ true
Contains-has_part s t (front, rest, e) =
    subst (λ u. has_part u t ≡ true) (sym e) (part_append front t rest)

-- The path begins with an allowed directory.
abbrev pub Inside : Bytes → Type 0
Inside path = (a : String) × In a allowed_prefixes × Begins path (codes a)

is_out_of_bounds-Inside : (path : Bytes) → is_out_of_bounds path ≡ false → Inside path
unfolding is_out_of_bounds
is_out_of_bounds-Inside path h =
    let (a, i, t) = In-any (λ a. has_prefix path (codes a)) allowed_prefixes (ground (arith, h)) in
    (a, i, has_prefix-Begins path (codes a) t)

Inside-is_out_of_bounds : (path : Bytes) → Inside path → is_out_of_bounds path ≡ false
unfolding is_out_of_bounds
Inside-is_out_of_bounds path (a, i, b) = ground (
  arith,
  any-In (λ a. has_prefix path (codes a)) allowed_prefixes a i (Begins-has_prefix path (codes a) b),
)

paths_within : (paths : List Bytes) → any is_out_of_bounds paths ≡ false → All Inside paths
paths_within [] h = tt
paths_within (p ∷ paths) h =
    (is_out_of_bounds-Inside p (ground (arith, h)), paths_within paths (ground (arith, h)))

none_outside : (paths : List Bytes) → All Inside paths → any is_out_of_bounds paths ≡ false
none_outside [] h = refl
none_outside (p ∷ paths) h = ground (arith, Inside-is_out_of_bounds p h.0, none_outside paths h.1)

-- The command has none of the dangerous parts.
abbrev pub Harmless : Bytes → Type 0
Harmless command = (dc : String) → In dc dangerous_commands → ¬ Contains command (codes dc)

Harmless-any :
    (command : Bytes)
    → Harmless command
    → any (λ dc. has_part command (codes dc)) dangerous_commands ≡ false
Harmless-any command h =
    elim (Bool-cases (any (λ dc. has_part command (codes dc)) dangerous_commands)) [
      | inl t ↦
          let (dc, i, p) = In-any (λ dc. has_part command (codes dc)) dangerous_commands t in
          absurd (h dc i (has_part-Contains command (codes dc) p))
      | inr n ↦ n
    ]

any-Harmless :
    (command : Bytes)
    → any (λ dc. has_part command (codes dc)) dangerous_commands ≡ false
    → Harmless command
any-Harmless command h dc i p = false-true (
    sym h
    ∙ any-In (λ dc. has_part command (codes dc)) dangerous_commands dc i
        (Contains-has_part command (codes dc) p))

-- An access is accepted exactly if the command has none of the dangerous texts as a part and each of the
-- paths begins with an allowed directory. What follows the directory is not looked at, so a path
-- that leaves it by ".." is accepted.
pub validate_sandbox_access_iff :
    (command : Bytes) (paths : List Bytes)
    → (validate_sandbox_access command paths ≡ true) ↔ (Harmless command × All Inside paths)
unfolding validate_sandbox_access
validate_sandbox_access_iff command paths = (
  λ h. (any-Harmless command (ground (arith, h)), paths_within paths (ground (arith, h))),
  λ h. ground (arith, Harmless-any command h.0, none_outside paths h.1),
)
