-- ===== src/Idempotency/Survival.antt =====
-- How long the answer of a request stays in the store.
use df_code_audit.Prelude.{
  ℕ, suc, ◌+◌, ◌≤◌, ◌<◌, String, Bool, true, false, ◌||◌, ◌≡◌, refl, sym, ap, subst, ◌∙◌, Option,
  none, some, List, [], ◌∷◌, ◌++◌, arith, inl, inr, Bool-cases, length, ltb, if◌then◌else◌,
}
use df_code_audit.Prelude.Eq.{beq, String_eq, contains, contains-append}
use df_code_audit.Prelude.Dict.{Dict, lookup, insert, delete, lookup-insert, lookup-delete}
use text.Mathlib.TextEquality.{eq_iff}
use df_code_audit.Idempotency.{
  Entry, Store, appended, trim, save_within, save, remove_first, delete_locked, clear_found,
  clear_expired, settle, is_past, entry_beq, answer, check, max_entries,
}
use df_code_audit.Idempotency.Order.{is_some}
use df_code_audit.Idempotency.InStep.{InStep}
use df_code_audit.Idempotency.Contract.{answered, saved}

-- How many ids were inserted after an id.
abbrev behind : String → List String → ℕ
behind id [] = 0
behind id (x ∷ xs) = if beq x id then length xs else behind id xs

-- The id has an entry and at most `n` ids behind it.
abbrev Stands : String → Entry → ℕ → List String → Dict String Entry → Type 0
Stands id e n order m = (lookup id m ≡ some e) × (contains id order ≡ true) × (behind id order ≤ n)

kept_entry :
    (x id : String) (m : Dict String Entry)
    → beq x id ≡ false
    → lookup id (delete x m) ≡ lookup id m
kept_entry x id m f = lookup-delete x id m ∙ rw f refl

too_long : (max n k : ℕ) → ltb max (suc k) ≡ true → n < max → k ≤ n → ⊥
too_long max n k t l h = ground (arith, t, l, h)

false-true : false ≡ true → ⊥
false-true e = cc

length-snoc : (id : String) (ids : List String) → length (ids ++ id ∷ []) ≡ suc (length ids)
length-snoc id [] = refl
length-snoc id (x ∷ ids) = ap (λ n. suc n) (length-snoc id ids)

trim-Stands :
    (max n : ℕ) (id : String) (e : Entry) (order : List String) (m : Dict String Entry)
    → n < max
    → Stands id e n order m
    → Stands id e n (trim max order m).order (trim max order m).entries
unfolding trim
trim-Stands max n id e [] m l s = s
trim-Stands max n id e (x ∷ xs) m l s = elim (Bool-cases (ltb max (length (x ∷ xs)))) [
  | inl t ↦ elim (Bool-cases (beq x id)) [
    | inl same ↦ absurd (
        too_long max n (length xs) t l
          (subst (λ b. (if b then length xs else behind id xs) ≤ n) same s.2))
    | inr f ↦
        rw (t, trim)
          (trim-Stands max n id e xs (delete x m) l (
            kept_entry x id m f ∙ s.0,
            ground (arith, s.1, f),
            subst (λ b. (if b then length xs else behind id xs) ≤ n) f s.2,
          ))
  ]
  | inr f ↦ rw (f, trim) s
]

behind-append :
    (id j : String) (xs : List String)
    → contains id xs ≡ true
    → behind id (xs ++ j ∷ []) ≤ suc (behind id xs)
behind-append id j [] h = absurd (false-true h)
behind-append id j (x ∷ xs) h = elim (Bool-cases (beq x id)) [
  | inl t ↦ rw t (omega (arith, length-snoc j xs))
  | inr f ↦ rw f (behind-append id j xs (ground (arith, h, f)))
]

appended-Stands :
    (o : Option Entry) (id j : String) (e : Entry) (n : ℕ) (order : List String)
    → contains id order ≡ true
    → behind id order ≤ n
    → (contains id (appended o j order) ≡ true) × (behind id (appended o j order) ≤ suc n)
unfolding appended
appended-Stands (some g) id j e n order h l = (h, omega (arith, l))
appended-Stands none id j e n order h l = (
  contains-append id order (j ∷ []) ∙ ground (arith, h),
  omega (arith, behind-append id j order h, l),
)

save_within-Stands :
    (max now n result : ℕ) (id j hash : String) (e : Entry) (s : Store)
    → beq j id ≡ false
    → suc n < max
    → Stands id e n s.order s.entries
    → let s1 = save_within max now j hash result s in Stands id e (suc n) s1.order s1.entries
unfolding save_within
save_within-Stands max now n result id j hash e s f l h =
    let a = appended-Stands (lookup j s.entries) id j e n s.order h.1 h.2 in
    trim-Stands max (suc n) id e (appended (lookup j s.entries) j s.order)
      (insert j (saved now hash result) s.entries) l
      (lookup-insert j id (saved now hash result) s.entries ∙ rw f h.0, a.0, a.1)

shorter : (j : String) (xs : List String) → length (remove_first j xs) ≤ length xs
unfolding remove_first
shorter j [] = omega arith
shorter j (x ∷ xs) = elim (Bool-cases (beq x j)) [
  | inl t ↦ rw t (omega arith)
  | inr f ↦ rw f (omega (arith, shorter j xs))
]

same_text : (x j id : String) → beq x j ≡ true → beq j id ≡ false → beq x id ≡ false
same_text x j id t f = subst (λ y. beq y id ≡ false) (sym ((eq_iff x j).0 t)) f

remove_first-behind :
    (id j : String) (xs : List String)
    → beq j id ≡ false
    → contains id xs ≡ true
    → (contains id (remove_first j xs) ≡ true) × (behind id (remove_first j xs) ≤ behind id xs)
unfolding remove_first
remove_first-behind id j [] f h = (h, omega arith)
remove_first-behind id j (x ∷ xs) f h = elim (Bool-cases (beq x j)) [
  | inl t ↦ let g = same_text x j id t f in rw (t, g) (ground (arith, h, g), omega arith)
  | inr n ↦ elim (Bool-cases (beq x id)) [
    | inl t ↦ rw (n, t) (refl, shorter j xs)
    | inr g ↦ let r = remove_first-behind id j xs f (ground (arith, h, g)) in rw (n, g) r
  ]
]

delete_locked-Stands :
    (id j : String) (e : Entry) (n : ℕ) (s : Store)
    → beq j id ≡ false
    → Stands id e n s.order s.entries
    → Stands id e n (delete_locked j s).order (delete_locked j s).entries
unfolding delete_locked
delete_locked-Stands id j e n s f h =
    let r = remove_first-behind id j s.order f h.1 in
    (kept_entry j id s.entries f ∙ h.0, r.0, omega (arith, r.1, h.2))

clear_found-Stands :
    (o : Option Entry) (g e : Entry) (id j : String) (n : ℕ) (s : Store)
    → beq j id ≡ false
    → Stands id e n s.order s.entries
    → Stands id e n (clear_found o g j s).order (clear_found o g j s).entries
unfolding clear_found
clear_found-Stands none g e id j n s f h = h
clear_found-Stands (some cur) g e id j n s f h = elim (Bool-cases (entry_beq cur g)) [
  | inl t ↦ rw (t, clear_found) (delete_locked-Stands id j e n s f h)
  | inr b ↦ rw (b, clear_found) h
]

settle-Stands :
    (now : ℕ) (o : Option Entry) (e : Entry) (id j : String) (n : ℕ) (s : Store)
    → beq j id ≡ false
    → Stands id e n s.order s.entries
    → Stands id e n (settle now j o s).order (settle now j o s).entries
unfolding settle clear_expired
settle-Stands now none e id j n s f h = h
settle-Stands now (some g) e id j n s f h = elim (Bool-cases (is_past now g)) [
  | inl t ↦ rw (t, settle, clear_expired) (clear_found-Stands (lookup j s.entries) g e id j n s f h)
  | inr b ↦ rw (b, settle) h
]

-- What requests with another id do to the store: the second section of a check, with what its first
-- section read at any time before, and a save.
pub data Other : Type 0 where
  other_settles : ℕ → String → Option Entry → Other
  other_saves : ℕ → String → String → ℕ → Other

abbrev pub id_of : Other → String
id_of (other_settles now j read) = j
id_of (other_saves now j hash result) = j

unfoldable pub others : List Other → Store → Store
others [] s = s
others (other_settles now j read ∷ rest) s = others rest (settle now j read s)
others (other_saves now j hash result ∷ rest) s = others rest (save now j hash result s)

abbrev pub save_count : List Other → ℕ
save_count [] = 0
save_count (other_settles now j read ∷ rest) = save_count rest
save_count (other_saves now j hash result ∷ rest) = suc (save_count rest)

-- None of them is a request with the id.
abbrev pub Apart : String → List Other → Type 0
Apart id [] = Unit
Apart id (a ∷ rest) = (beq (id_of a) id ≡ false) × Apart id rest

others-Stands :
    (acts : List Other) (id : String) (e : Entry) (n : ℕ) (s : Store)
    → Apart id acts
    → n + save_count acts < max_entries
    → Stands id e n s.order s.entries
    → lookup id (others acts s).entries ≡ some e
unfolding others save
others-Stands [] id e n s a l h = h.0
others-Stands (other_settles now j read ∷ rest) id e n s a l h =
    others-Stands rest id e n (settle now j read s) a.1 l (settle-Stands now read e id j n s a.0 h)
others-Stands (other_saves now j hash result ∷ rest) id e n s a l h =
    others-Stands rest id e (suc n) (save_within max_entries now j hash result s) a.1
      (omega (arith, l))
      (save_within-Stands max_entries now n result id j hash e s a.0 (omega (arith, l)) h)

first_differs : (b c : Bool) → (b || c) ≡ false → b ≡ false
first_differs b c h = ground (arith, h)

last_behind :
    (id : String) (xs : List String) → contains id xs ≡ false → behind id (xs ++ id ∷ []) ≡ 0
last_behind id [] h = rw ((eq_iff id id).1 refl) refl
last_behind id (x ∷ xs) h =
    rw (first_differs (beq x id) (contains id xs) h) (last_behind id xs (ground (arith, h)))

save-Stands :
    (now result : ℕ) (id hash : String) (s : Store)
    → InStep max_entries s
    → lookup id s.entries ≡ none
    → Stands id
        (saved now hash result)
        0
        (save now id hash result s).order
        (save now id hash result s).entries
unfolding save save_within appended
save-Stands now result id hash s i h =
    let absent = i.agree id ∙ ap is_some h in
    rw (h, save_within, appended)
      (trim-Stands max_entries 0 id (saved now hash result) (s.order ++ id ∷ [])
        (insert id (saved now hash result) s.entries) (omega arith)
        (
          lookup-insert id id (saved now hash result) s.entries ∙ rw ((eq_iff id id).1 refl) refl,
          contains-append id s.order (id ∷ []) ∙ ground (arith, eq_iff id id),
          omega (arith, last_behind id s.order absent),
        ))

answer-answered :
    (t now : ℕ) (id hash hash2 : String) (result : ℕ)
    → answer now id hash2 (some (saved t hash result)) ≡ answered t now id hash hash2 result
unfolding answer is_past
answer-answered t now id hash hash2 result = refl

-- A request whose id the store does not have saves its answer. Whatever checks and saves of requests with
-- other ids follow, in any order, as long as their saves are fewer than the store's 10000 entries: for
-- 24 hours a check with the same body gets the saved answer and one with another body is refused, and
-- after that the id is free.
pub others-check :
    (acts : List Other) (t now : ℕ) (id hash hash2 : String) (result : ℕ) (s : Store)
    → InStep max_entries s
    → lookup id s.entries ≡ none
    → Apart id acts
    → save_count acts < max_entries
    → (check now id hash2 (others acts (save t id hash result s))).0
      ≡ answered t now id hash hash2 result
unfolding check
others-check acts t now id hash hash2 result s i h a l =
    ap (answer now id hash2) (
      others-Stands acts id (saved t hash result) 0 (save t id hash result s) a (omega (arith, l))
        (save-Stands t result id hash s i h))
    ∙ answer-answered t now id hash hash2 result
