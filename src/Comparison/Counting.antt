-- ===== src/Comparison/Counting.antt =====
-- The quadrants and the locations of a comparison.
use df_code_audit.Prelude.{
  ℕ, suc, ◌+◌, Bool, true, false, not, ◌≡◌, refl, sym, ap, subst, ◌∙◌, Option, none, some, List, [],
  ◌∷◌, ◌++◌, if◌then◌else◌, ◌==◌, arith, inl, inr, Bool-cases,
}
use df_code_audit.Prelude.Eq.{contains}
use df_code_audit.Prelude.Dict.{Dict, lookup, insert, lookup-insert, lookup-nil}
use df_code_audit.Comparison.{
  Finding, LocationKey, LocationKey_eq, key_beq, key_beq_iff, key_of, Quadrants, index_from,
  is_found, count_location, count_sast, count_ai, quadrant_counts,
}

abbrev Index : Type 0
Index = Dict LocationKey Finding

-- The file and the line.
abbrev pub location : Finding → LocationKey
location f = (f.file_path, f.start_line)

-- The locations of some findings, each once, after those that are there.
abbrev pub locations : List LocationKey → List Finding → List LocationKey
locations seen [] = seen
locations seen (f ∷ fs) =
    locations (if contains (location f) seen then seen else seen ++ location f ∷ []) fs

-- The last finding at a location, or what is given.
abbrev pub last_at : LocationKey → List Finding → Option Finding → Option Finding
last_at l [] o = o
last_at l (f ∷ fs) o = last_at l fs (if key_beq (location f) l then some f else o)

abbrev pub is_at : List Finding → LocationKey → Bool
is_at fs l = is_found (last_at l fs none)

-- Two findings of different severity.
abbrev pub differ : Option Finding → Option Finding → Bool
differ none o = false
differ (some f) none = false
differ (some f) (some g) = not (f.severity == g.severity)

abbrev pub how_many : (LocationKey → Bool) → List LocationKey → ℕ
how_many p [] = 0
how_many p (l ∷ ls) = if p l then suc (how_many p ls) else how_many p ls

how_many_same :
    (p r : LocationKey → Bool) (ls : List LocationKey)
    → ((l : LocationKey) → p l ≡ r l)
    → how_many p ls ≡ how_many r ls
how_many_same p r [] h = refl
how_many_same p r (l ∷ ls) h =
    rw (h l) (ap (λ n. if r l then suc n else n) (how_many_same p r ls h))

abbrev keys : Index → List LocationKey
keys [] = []
keys ((k, f) ∷ m) = k ∷ keys m

insert-keys :
    (k : LocationKey) (f : Finding) (m : Index)
    → keys (insert k f m) ≡ (if contains k (keys m) then keys m else keys m ++ k ∷ [])
unfolding insert
insert-keys k f [] = refl
insert-keys k f ((j, g) ∷ m) = elim (Bool-cases (key_beq j k)) [
  | inl t ↦ rw (t, insert) (ap (λ i. i ∷ keys m) (sym ((key_beq_iff j k).0 t)))
  | inr n ↦
      rw (n, insert)
        (ap (λ ks. j ∷ ks) (insert-keys k f m) ∙ under_if j (contains k (keys m)) (keys m) k)
]
  where
    under_if :
        (j : LocationKey) (b : Bool) (ks : List LocationKey) (k : LocationKey)
        → j ∷ (if b then ks else ks ++ k ∷ []) ≡ (if b then j ∷ ks else (j ∷ ks) ++ k ∷ [])
    under_if j true ks k = refl
    under_if j false ks k = refl

index_from-locations :
    (fs : List Finding) (m : Index) → keys (index_from fs m) ≡ locations (keys m) fs
unfolding index_from key_of
index_from-locations [] m = refl
index_from-locations (f ∷ fs) m =
    index_from-locations fs (insert (location f) f m)
    ∙ ap (λ ks. locations ks fs) (insert-keys (location f) f m)

index_from-last_at :
    (l : LocationKey) (fs : List Finding) (m : Index)
    → lookup l (index_from fs m) ≡ last_at l fs (lookup l m)
unfolding index_from key_of
index_from-last_at l [] m = refl
index_from-last_at l (f ∷ fs) m =
    index_from-last_at l fs (insert (location f) f m)
    ∙ ap (last_at l fs) (lookup-insert (location f) l f m)

-- No location has two entries.
abbrev Once : Index → Type 0
Once [] = Unit
Once ((k, f) ∷ m) = (lookup k m ≡ none) × Once m

false-true : false ≡ true → ⊥
false-true e = cc

apart : (j k : LocationKey) → key_beq j k ≡ false → key_beq k j ≡ false
apart j k f = elim (Bool-cases (key_beq k j)) [
  | inl t ↦ absurd (false-true (sym f ∙ (key_beq_iff j k).1 (sym ((key_beq_iff k j).0 t))))
  | inr g ↦ g
]

insert-Once : (k : LocationKey) (f : Finding) (m : Index) → Once m → Once (insert k f m)
unfolding insert
insert-Once k f [] o = (lookup-nil k, tt)
insert-Once k f ((j, g) ∷ m) o = elim (Bool-cases (key_beq j k)) [
  | inl t ↦ rw (t, insert) (subst (λ i. lookup i m ≡ none) ((key_beq_iff j k).0 t) o.0, o.1)
  | inr t ↦ rw (t, insert) (lookup-insert k j f m ∙ rw (apart j k t) o.0, insert-Once k f m o.1)
]

index_from-Once : (fs : List Finding) (m : Index) → Once m → Once (index_from fs m)
unfolding index_from
index_from-Once [] m o = o
index_from-Once (f ∷ fs) m o = index_from-Once fs _ (insert-Once (key_of f) f m o)

-- The entries of an index are what another one has at their locations.
abbrev Hold : Index → Index → Type 0
Hold all [] = Unit
Hold all ((k, f) ∷ m) = (lookup k all ≡ some f) × Hold all m

none-some : {f : Finding} → none ≡ some f → ⊥
none-some e = cc

first_entry : (k : LocationKey) (f : Finding) (m : Index) → lookup k ((k, f) ∷ m) ≡ some f
unfolding lookup
first_entry k f m = rw ((key_beq_iff k k).1 refl) refl

later_entry :
    (k j : LocationKey) (f g : Finding) (m : Index)
    → lookup k m ≡ none
    → lookup j m ≡ some g
    → lookup j ((k, f) ∷ m) ≡ some g
unfolding lookup
later_entry k j f g m h e = elim (Bool-cases (key_beq k j)) [
  | inl t ↦ absurd (none-some (sym h ∙ ap (λ i. lookup i m) ((key_beq_iff k j).0 t) ∙ e))
  | inr n ↦ rw n e
]

entries_more :
    (k : LocationKey) (f : Finding) (m n : Index)
    → lookup k m ≡ none
    → Hold m n
    → Hold ((k, f) ∷ m) n
entries_more k f m [] h a = tt
entries_more k f m ((j, g) ∷ n) h a = (later_entry k j f g m h a.0, entries_more k f m n h a.1)

Once-Hold : (m : Index) → Once m → Hold m m
Once-Hold [] o = tt
Once-Hold ((k, f) ∷ m) o = (first_entry k f m, entries_more k f m m o.0 (Once-Hold m o.1))

-- What the pass over the scanners' index adds.
abbrev Tally : Quadrants → Quadrants → ℕ → ℕ → ℕ → Type 0
Tally q r both sast_only disagreement =
    (r.both ≡ q.both + both)
    × (r.sast_only ≡ q.sast_only + sast_only)
    × (r.ai_only ≡ q.ai_only)
    × (r.disagreement ≡ q.disagreement + disagreement)

add_location :
    (f : Finding) (o : Option Finding) (q r : Quadrants) (b s d : ℕ)
    → Tally (count_location f o q) r b s d
    → Tally q r
        (if is_found o then suc b else b)
        (if not (is_found o) then suc s else s)
        (if differ (some f) o then suc d else d)
unfolding count_location
add_location f none q r b s d t = (t.0, omega (arith, t.1), t.2, t.3)
add_location f (some g) q r b s d t = (omega (arith, t.0), t.1, t.2, ground (arith, t.3))

count_sast-Tally :
    (all ai m : Index) (q : Quadrants)
    → Hold all m
    → Tally q
        (count_sast ai m q)
        (how_many (λ k. is_found (lookup k ai)) (keys m))
        (how_many (λ k. not (is_found (lookup k ai))) (keys m))
        (how_many (λ k. differ (lookup k all) (lookup k ai)) (keys m))
unfolding count_sast
count_sast-Tally all ai [] q h = (omega arith, omega arith, refl, omega arith)
count_sast-Tally all ai ((k, f) ∷ m) q h = rw (h.0) (
    add_location f (lookup k ai) q (count_sast ai m (count_location f (lookup k ai) q)) _ _ _
      (count_sast-Tally all ai m (count_location f (lookup k ai) q) h.1))

-- What the pass over the AI's index adds.
abbrev Rest : Quadrants → Quadrants → ℕ → Type 0
Rest q r ai_only =
    (r.both ≡ q.both)
    × (r.sast_only ≡ q.sast_only)
    × (r.ai_only ≡ q.ai_only + ai_only)
    × (r.disagreement ≡ q.disagreement)

add_ai :
    (b : Bool) (q r : Quadrants) (n : ℕ)
    → Rest (if b then q else record q { ai_only = suc q.ai_only }) r n
    → Rest q r (if not b then suc n else n)
add_ai true q r n t = t
add_ai false q r n t = (t.0, t.1, omega (arith, t.2), t.3)

count_ai-Rest :
    (sast m : Index) (q : Quadrants)
    → Rest q (count_ai sast m q) (how_many (λ k. not (is_found (lookup k sast))) (keys m))
unfolding count_ai
count_ai-Rest sast [] q = (refl, refl, omega arith, refl)
count_ai-Rest sast ((k, f) ∷ m) q =
    let next = if is_found (lookup k sast) then q else record q { ai_only = suc q.ai_only } in
    add_ai (is_found (lookup k sast)) q (count_ai sast m next) _ (count_ai-Rest sast m next)

from_zero : (n : ℕ) → 0 + n ≡ n
from_zero n = omega arith

abbrev quadrants : ℕ → ℕ → ℕ → ℕ → Quadrants
quadrants b s a d = record { both = b; sast_only = s; ai_only = a; disagreement = d }

four_equal :
    (q : Quadrants) (b s a d : ℕ)
    → q.both ≡ b
    → q.sast_only ≡ s
    → q.ai_only ≡ a
    → q.disagreement ≡ d
    → q ≡ record { both = b; sast_only = s; ai_only = a; disagreement = d }
four_equal q b s a d e f g h =
    ap (λ n. record q { both = n }) e
    ∙ ap (λ n. record q { both = b; sast_only = n }) f
    ∙ ap (λ n. record q { both = b; sast_only = s; ai_only = n }) g
    ∙ ap (quadrants b s a) h

-- What an index has at a location is the last finding there.
indexed : (fs : List Finding) (l : LocationKey) → lookup l (index_from fs []) ≡ last_at l fs none
indexed fs l = index_from-last_at l fs [] ∙ ap (last_at l fs) (lookup-nil l)

count_indexed :
    (p r : LocationKey → Bool) (fs : List Finding)
    → ((l : LocationKey) → p l ≡ r l)
    → how_many p (keys (index_from fs [])) ≡ how_many r (locations [] fs)
count_indexed p r fs h =
    ap (how_many p) (index_from-locations fs []) ∙ how_many_same p r (locations [] fs) h

-- The four quadrants are counts of locations, a file and a line, each taken once: those of the scanners'
-- findings at which the AI has one, those at which it has none, and those of the AI's findings at
-- which the scanners have none. A disagreement is a location of both at which the last finding of
-- each side has another severity.
pub quadrant_counts_lem :
    (sast ai : List Finding)
    → quadrant_counts sast ai ≡ record {
      both = how_many (is_at ai) (locations [] sast);
      sast_only = how_many (λ l. not (is_at ai l)) (locations [] sast);
      ai_only = how_many (λ l. not (is_at sast l)) (locations [] ai);
      disagreement =
          how_many (λ l. differ (last_at l sast none) (last_at l ai none)) (locations [] sast);
    }
unfolding quadrant_counts
quadrant_counts_lem sast ai =
    let a = index_from sast [] in
    let b = index_from ai [] in
    let zeros : Quadrants = record { both = 0; sast_only = 0; ai_only = 0; disagreement = 0 } in
    let first = count_sast b a zeros in
    let t = count_sast-Tally a b a zeros (Once-Hold a (index_from-Once sast [] tt)) in
    let r = count_ai-Rest a b first in
    four_equal (count_ai a b first) _ _ _ _
      (r.0
        ∙ t.0
        ∙ from_zero _
        ∙ count_indexed (λ k. is_found (lookup k b)) (is_at ai) sast
            (λ l. ap is_found (indexed ai l)))
      (r.1
        ∙ t.1
        ∙ from_zero _
        ∙ count_indexed (λ k. not (is_found (lookup k b))) (λ l. not (is_at ai l)) sast
            (λ l. ap (λ o. not (is_found o)) (indexed ai l)))
      (r.2
        ∙ ap (λ n. n + how_many (λ k. not (is_found (lookup k a))) (keys b)) t.2
        ∙ from_zero _
        ∙ count_indexed (λ k. not (is_found (lookup k a))) (λ l. not (is_at sast l)) ai
            (λ l. ap (λ o. not (is_found o)) (indexed sast l)))
      (r.3
        ∙ t.3
        ∙ from_zero _
        ∙ count_indexed (λ k. differ (lookup k a) (lookup k b))
            (λ l. differ (last_at l sast none) (last_at l ai none)) sast
            (λ l. rw (indexed sast l, indexed ai l) refl))
