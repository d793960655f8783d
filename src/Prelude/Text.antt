-- ===== src/Prelude/Text.antt =====
-- Texts as Go builds them: `fmt.Sprintf("%d", n)`, and byte strings as lists of bytes.
use Prim.Native.Char.{code}
use Prim.Native.String.{[] as no_text, ◌∷◌ as ◌then_char◌, String, ◌++◌ as append}
use df_code_audit.Prelude.Tests.{◌==◌, leb, if◌then◌else◌, Bool-cases}
use Prim.Native.Nat.{ℕ, zero, suc, ◌+◌, ◌/◌, ◌%◌}
use mathlib.Core.Path.{◌≡◌, refl, ap}
use mathlib.Core.Bool.{Bool, true, false, ◌&&◌, ◌||◌}
use mathlib.Core.Logic.{◌↔◌, inl, inr}
use mathlib.Core.List.{List, [], ◌∷◌, ◌++◌}
use native.Mathlib.Omega.{arith}

abbrev pub concat : String → String → String
concat = append

digit : ℕ → String
digit n =
    if n == 0
    then "0"
    else if n == 1
    then "1"
    else if n == 2
    then "2"
    else if n == 3
    then "3"
    else if n == 4
    then "4"
    else if n == 5
    then "5"
    else if n == 6
    then "6"
    else if n == 7
    then "7"
    else if n == 8
    then "8"
    else "9"

digits : ℕ → ℕ → String → String
unfolding digit
digits zero n acc = acc
digits (suc fuel) n acc =
    let acc' = concat (digit (n % 10)) acc in
    let rest = digits fuel (n / 10) acc' in if n / 10 == 0 then acc' else rest

-- A number has no more digits than its value plus one.
unfoldable pub decimal : ℕ → String
unfolding digits
decimal n = digits (n + 1) n ""

decimal_test : decimal 2047 ≡ "2047"
unfolding decimal
decimal_test = refl

-- The characters of a text, by their numbers.
abbrev pub codes : String → List ℕ
codes no_text = []
codes (c then_char s) = code c ∷ codes s

abbrev pub Bytes : Type 0
Bytes = List ℕ

abbrev pub bytes_beq : Bytes → Bytes → Bool
bytes_beq [] [] = true
bytes_beq [] (d ∷ t) = false
bytes_beq (c ∷ s) [] = false
bytes_beq (c ∷ s) (d ∷ t) = c == d && bytes_beq s t

pub bytes_beq_iff : (s t : Bytes) → (bytes_beq s t ≡ true) ↔ (s ≡ t)
bytes_beq_iff [] [] = ground arith
bytes_beq_iff [] (d ∷ t) = ground arith
bytes_beq_iff (c ∷ s) [] = ground arith
bytes_beq_iff (c ∷ s) (d ∷ t) = ground (arith, bytes_beq_iff s t)

-- strings.HasPrefix
unfoldable pub has_prefix : Bytes → Bytes → Bool
has_prefix s [] = true
has_prefix [] (d ∷ t) = false
has_prefix (c ∷ s) (d ∷ t) = c == d && has_prefix s t

-- strings.HasSuffix
unfoldable pub has_suffix : Bytes → Bytes → Bool
has_suffix [] t = bytes_beq [] t
has_suffix (c ∷ s) t = bytes_beq (c ∷ s) t || has_suffix s t

has_suffix_sound : (s t : Bytes) → has_suffix s t ≡ true → (front : Bytes) × (s ≡ front ++ t)
unfolding has_suffix
has_suffix_sound [] t h = ([], (bytes_beq_iff [] t).0 h)
has_suffix_sound (c ∷ s) t h = elim (Bool-cases (bytes_beq (c ∷ s) t)) [
  | inl e ↦ ([], (bytes_beq_iff (c ∷ s) t).0 e)
  | inr e ↦
      let (front, q) = has_suffix_sound s t (ground (arith, e)) in
      (c ∷ front, ap (λ (r : Bytes). c ∷ r) q)
]

has_suffix_self : (t : Bytes) → has_suffix t t ≡ true
unfolding has_suffix
has_suffix_self [] = refl
has_suffix_self (d ∷ t) = ground (arith, bytes_beq_iff (d ∷ t) (d ∷ t))

has_suffix_append : (front t : Bytes) → has_suffix (front ++ t) t ≡ true
unfolding has_suffix
has_suffix_append [] t = has_suffix_self t
has_suffix_append (c ∷ front) t = ground (arith, has_suffix_append front t)

pub has_suffix_iff : (s t : Bytes) → (has_suffix s t ≡ true) ↔ ((front : Bytes) × (s ≡ front ++ t))
has_suffix_iff s t = (has_suffix_sound s t, λ p. rw p.1 (has_suffix_append p.0 t))

-- strings.Contains
unfoldable pub has_part : Bytes → Bytes → Bool
has_part [] t = has_prefix [] t
has_part (c ∷ s) t = has_prefix (c ∷ s) t || has_part s t

pub has_prefix_append : (front rest : Bytes) → has_prefix (front ++ rest) front ≡ true
unfolding has_prefix
has_prefix_append [] [] = refl
has_prefix_append [] (d ∷ rest) = refl
has_prefix_append (c ∷ front) rest = ground (arith, has_prefix_append front rest)

-- unicode.IsSpace
unfoldable pub is_white : ℕ → Bool
is_white c =
    (leb 9 c && leb c 13)
    || (c == 32
        || (c == 133
            || (c == 160
                || (c == 5760
                    || ((leb 8192 c && leb c 8202)
                        || (c == 8232
                            || (c == 8233 || (c == 8239 || (c == 8287 || c == 12288)))))))))

unfoldable pub trim_left : List ℕ → List ℕ
trim_left [] = []
trim_left (c ∷ s) = if is_white c then trim_left s else c ∷ s

-- A character before what is left of the rest.
unfoldable pub kept_before : ℕ → List ℕ → List ℕ
kept_before c [] = if is_white c then [] else c ∷ []
kept_before c (d ∷ s) = c ∷ d ∷ s

unfoldable pub trim_right : List ℕ → List ℕ
unfolding kept_before
trim_right [] = []
trim_right (c ∷ s) = kept_before c (trim_right s)

-- strings.TrimSpace
unfoldable pub trim_space : List ℕ → List ℕ
unfolding trim_left trim_right
trim_space s = trim_right (trim_left s)

abbrev pub is_empty : List ℕ → Bool
is_empty [] = true
is_empty (c ∷ s) = false
