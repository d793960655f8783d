-- ===== src/Comparison/Resolve.antt =====
-- The cache of findings and the result service.
use df_code_audit.Prelude.{
  ℕ, suc, ◌≤◌, String, Bool, true, false, ◌≡◌, refl, sym, ap, subst, ◌∙◌, Option, none, some, List,
  [], ◌∷◌, ◌++◌, length, ltb, if◌then◌else◌, arith, inl, inr, ◌⊎◌, Bool-cases,
}
use df_code_audit.Prelude.Eq.{beq, String_eq, contains}
use text.Mathlib.TextEquality.{eq_iff}
use df_code_audit.Prelude.Dict.{Dict, lookup, insert, delete, lookup-insert, lookup-delete}
use df_code_audit.Comparison.{Finding}
use df_code_audit.Comparison.Cache.{
  Resolved, and_id, FindingCache, finding_cache_cap, new_cache, evicted, put_over,
  finding_cache_put, and_id, put_fetched, resolve_over, resolve_from, resolve_findings,
}

none-some : {f : Finding} → none ≡ some f → ⊥
none-some e = cc

kept : (b : Bool) (o : Option Finding) (f : Finding) → (if b then none else o) ≡ some f → o ≡ some f
kept true o f h = absurd (none-some h)
kept false o f h = h

left_out :
    (b : Bool)
    → b ≡ false
    → (p o : Option Finding) (f : Finding) → (if b then p else o) ≡ some f
    → o ≡ some f
left_out b n p o f h = subst (λ x. (if x then p else o) ≡ some f) n h

chosen :
    (b : Bool)
    → b ≡ true
    → (p o : Option Finding) (f : Finding) → (if b then p else o) ≡ some f
    → p ≡ some f
chosen b t p o f h = subst (λ x. (if x then p else o) ≡ some f) t h

some_eq : {f g : Finding} → some f ≡ some g → f ≡ g
some_eq e = cc

length-snoc : (id : String) (ids : List String) → length (ids ++ id ∷ []) ≡ suc (length ids)
length-snoc id [] = refl
length-snoc id (x ∷ ids) = ap (λ n. suc n) (length-snoc id ids)

-- A call: the answers of the result service at that time, and the ids.
abbrev pub Call : Type 0
Call = (String → Option Finding) × List String

-- The cache after some calls.
unfoldable pub after_calls : List Call → FindingCache → FindingCache
after_calls [] c = c
after_calls ((fetch, ids) ∷ calls) c = after_calls calls (resolve_findings fetch ids c).1

-- In one of the calls the service had this finding for this id.
abbrev pub Gave : List Call → String → Finding → Type 0
Gave [] id f = ⊥
Gave ((fetch, ids) ∷ calls) id f = (fetch id ≡ some f) ⊎ Gave calls id f

-- What is known of an id: a finding that was given for it, or the service has none now.
abbrev pub Source :
    (String → Finding → Type 0) → (String → Option Finding) → String → Option Finding → Type 0
Source P fetch id none = fetch id ≡ none
Source P fetch id (some f) = P id f

-- Each id once and in order, with its finding among the results or itself among the missing.
pub data Told (P : String → Finding → Type 0) (fetch : String → Option Finding)
    : List String → List String → Resolved → Type 0 where
  no_more : (seen : List String) → Told P fetch seen [] (record { out = []; missing = [] })
  again :
      (seen ids : List String) (id : String) (r : Resolved)
      → contains id seen ≡ true
      → Told P fetch seen ids r
      → Told P fetch seen (id ∷ ids) r
  anew :
      (seen ids : List String) (id : String) (o : Option Finding) (rest : Resolved)
      → contains id seen ≡ false
      → Source P fetch id o
      → Told P fetch (id ∷ seen) ids rest
      → Told P fetch seen (id ∷ ids) (and_id id o rest)

module _ (P : String → Finding → Type 0) where
  abbrev Given : Dict String Finding → Type 0
  Given m = (id : String) (f : Finding) → lookup id m ≡ some f → P id f

  delete-Given : (k : String) (m : Dict String Finding) → Given m → Given (delete k m)
  delete-Given k m h id f q =
      h id f (kept (beq k id) (lookup id m) f (sym (lookup-delete k id m) ∙ q))

  insert-Given :
      (k : String) (g : Finding) (m : Dict String Finding) → P k g → Given m → Given (insert k g m)
  insert-Given k g m e h id f q = elim (Bool-cases (beq k id)) [
    | inl t ↦
        let same =
          some_eq
            (chosen (beq k id) t (some g) (lookup id m) f (sym (lookup-insert k id g m) ∙ q)) in
        subst (λ i. P i f) ((eq_iff k id).0 t) (subst (λ (x : Finding). P k x) same e)
    | inr n ↦
        h id f (left_out (beq k id) n (some g) (lookup id m) f (sym (lookup-insert k id g m) ∙ q))
  ]

  -- The entries were given, and their order is within the capacity.
  abbrev pub Kept : ℕ → FindingCache → Type 0
  Kept cap c = Given c.finding_store × (length c.finding_order ≤ cap)

  evicted-Kept :
      (cap : ℕ) (order : List String) (m : Dict String Finding)
      → Given m
      → length order ≤ suc cap
      → Kept cap (evicted cap order m)
  unfolding evicted
  evicted-Kept cap [] m h l = (h, omega arith)
  evicted-Kept cap (evict ∷ order) m h l = elim (Bool-cases (ltb cap (length (evict ∷ order)))) [
    | inl t ↦ rw (t, evicted) (delete-Given evict m h, omega (arith, l))
    | inr n ↦ rw (n, evicted) (h, ground (arith, n))
  ]

  put_over-Kept :
      (cap : ℕ) (id : String) (f : Finding) (c : FindingCache) (o : Option Finding)
      → P id f
      → Kept cap c
      → Kept cap (put_over cap id f c o)
  unfolding put_over
  put_over-Kept cap id f c (some g) e a = a
  put_over-Kept cap id f c none e a =
      evicted-Kept cap (c.finding_order ++ id ∷ []) (insert id f c.finding_store)
        (insert-Given id f c.finding_store e a.0)
        (omega (arith, a.1, length-snoc id c.finding_order))

  module _ (fetch : String → Option Finding)
      (gives : (id : String) (f : Finding) → fetch id ≡ some f → P id f) where
    put_fetched-Kept :
        (cap : ℕ) (id : String) (o : Option Finding) (c : FindingCache)
        → fetch id ≡ o
        → Kept cap c
        → Kept cap (put_fetched fetch cap id o c)
    unfolding put_fetched finding_cache_put
    put_fetched-Kept cap id none c e a = a
    put_fetched-Kept cap id (some f) c e a =
        put_over-Kept cap id f c (lookup id c.finding_store) (gives id f e) a

    answer-Source : (id : String) (o : Option Finding) → fetch id ≡ o → Source P fetch id o
    answer-Source id none e = e
    answer-Source id (some f) e = gives id f e

    resolve_over-Source :
        (cap : ℕ) (id : String) (c : FindingCache) (o : Option Finding)
        → lookup id c.finding_store ≡ o
        → Kept cap c
        → Source P fetch id (resolve_over fetch cap id c o).0
          × Kept cap (resolve_over fetch cap id c o).1
    unfolding resolve_over
    resolve_over-Source cap id c (some f) e a = (a.0 id f e, a)
    resolve_over-Source cap id c none e a =
        (answer-Source id (fetch id) refl, put_fetched-Kept cap id (fetch id) c refl a)

    resolve_from-Told :
        (cap : ℕ) (ids seen : List String) (c : FindingCache)
        → Kept cap c
        → Told P fetch seen ids (resolve_from fetch cap seen ids c).0
          × Kept cap (resolve_from fetch cap seen ids c).1
    unfolding resolve_from
    resolve_from-Told cap [] seen c a = (no_more seen, a)
    resolve_from-Told cap (id ∷ ids) seen c a = elim (Bool-cases (contains id seen)) [
      | inl t ↦
          let rest = resolve_from-Told cap ids seen c a in
          rw (t, resolve_from) (again seen ids id _ t rest.0, rest.1)
      | inr n ↦
          let s = resolve_over-Source cap id c (lookup id c.finding_store) refl a in
          let next = resolve_over fetch cap id c (lookup id c.finding_store) in
          let rest = resolve_from-Told cap ids (id ∷ seen) next.1 s.1 in
          rw (n, resolve_from)
            (
              anew seen ids id next.0 (resolve_from fetch cap (id ∷ seen) ids next.1).0 n s.0
                  rest.0,
              rest.1,
            )
    ]

after_calls-Kept :
    (calls all : List Call) (c : FindingCache)
    → ((id : String) (f : Finding) → Gave calls id f → Gave all id f)
    → Kept (Gave all) finding_cache_cap c
    → Kept (Gave all) finding_cache_cap (after_calls calls c)
unfolding after_calls resolve_findings
after_calls-Kept [] all c h a = a
after_calls-Kept ((fetch, ids) ∷ calls) all c h a =
    after_calls-Kept calls all (resolve_findings fetch ids c).1 (λ id f g. h id f (inr g))
      (resolve_from-Told (Gave all) fetch (λ id f e. h id f (inl e)) finding_cache_cap ids [] c a).1

new_cache-Kept : (P : String → Finding → Type 0) (cap : ℕ) → Kept P cap new_cache
unfolding lookup
new_cache-Kept P cap = (λ id f h. cc, omega arith)

-- However the answers of the result service change between the calls of a handler that starts with an empty
-- cache, and whatever is evicted: a call takes each of its ids once and in order, every finding that
-- it returns is one that the service had for that id in this call or an earlier one, and an id is
-- missing only if the service has no finding for it in this call. The cache's order stays within
-- its capacity.
pub resolve_findings-Told :
    (calls : List Call) (fetch : String → Option Finding) (ids : List String)
    → let r = resolve_findings fetch ids (after_calls calls new_cache) in
      Told (Gave ((fetch, ids) ∷ calls)) fetch [] ids r.0
      × (length r.1.finding_order ≤ finding_cache_cap)
unfolding resolve_findings
resolve_findings-Told calls fetch ids =
    let P = Gave ((fetch, ids) ∷ calls) in
    let r =
      resolve_from-Told P fetch (λ id f e. inl e) finding_cache_cap ids []
        (after_calls calls new_cache)
        (after_calls-Kept calls ((fetch, ids) ∷ calls) new_cache (λ id f g. inr g)
          (new_cache-Kept P finding_cache_cap)) in
    (r.0, r.1.1)
