-- ===== src/Graph/Numbering.antt =====
-- `nodeSeqOf` of graph_state.go, with `strconv.Atoi` of Go's library on an int of 64 bits.
use df_code_audit.Prelude.Text.{codes}
use df_code_audit.Prelude.{
  ℕ, ◌+◌, ◌*◌, ◌-◌, ◌^◌, String, ◌&&◌, ◌≡◌, refl, Option, none, some, List, [], ◌∷◌, if◌then◌else◌,
  ◌==◌, ltb, leb,
}

-- The value of the digits after `acc`; `none` where a character is no digit.
unfoldable pub digits_value : ℕ → List ℕ → Option ℕ
digits_value acc [] = some acc
digits_value acc (c ∷ cs) =
    let rest = digits_value (acc * 10 + (c - 48)) cs in if leb 48 c && leb c 57 then rest else none

-- An error of `Atoi` reads as 0, and so does a negative number: both are above no counter.
abbrev pub in_range : Option ℕ → ℕ
in_range none = 0
in_range (some n) = if ltb n (2 ^ 63) then n else 0

abbrev pub unsigned : List ℕ → ℕ
unfolding digits_value
unsigned [] = 0
unsigned (c ∷ cs) = in_range (digits_value 0 (c ∷ cs))

abbrev pub atoi : List ℕ → ℕ
unfolding digits_value
atoi [] = 0
atoi (c ∷ cs) = if c == 43 then unsigned cs else if c == 45 then 0 else unsigned (c ∷ cs)

abbrev pub seq_of_codes : List ℕ → ℕ
unfolding digits_value
seq_of_codes [] = 0
seq_of_codes (c ∷ cs) = if c == 110 then atoi cs else 0

unfoldable pub node_seq_of : String → ℕ
unfolding digits_value
node_seq_of id = seq_of_codes (codes id)

numbered : node_seq_of "n0042" ≡ 42
unfolding node_seq_of
numbered = refl

not_numbered : node_seq_of "g-n001" ≡ 0
unfolding node_seq_of
not_numbered = refl
