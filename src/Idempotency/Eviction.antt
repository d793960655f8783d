-- ===== src/Idempotency/Eviction.antt =====
-- The two stores, though written differently, come to the same entries in the same order.
use df_code_audit.Prelude.{
  ℕ, ◌≤◌, ◌<◌, String, true, false, ◌≡◌, refl, sym, ap, ◌∙◌, Option, none, some, List, [], ◌∷◌,
  ◌++◌, arith, inl, inr, Bool-cases, length, ltb, length-append, suc, if◌then◌else◌,
}
use df_code_audit.Prelude.Eq.{beq, String_eq, contains}
use df_code_audit.Prelude.Dict.{Dict, lookup, insert, delete, lookup-insert, lookup-delete}
use text.Mathlib.TextEquality.{eq_iff}
use df_code_audit.Idempotency.{Entry, Store, appended, trim, save_within}
use df_code_audit.Idempotency.Runtime.{evict, make_room, save_memory_within}
use df_code_audit.Idempotency.Order.{is_some}
use df_code_audit.Idempotency.InStep.{InStep, over_one}
use df_code_audit.Idempotency.Contract.{trim-small, saved}

delete-insert :
    (x id : String) (e : Entry) (m : Dict String Entry)
    → beq x id ≡ false
    → delete x (insert id e m) ≡ insert id e (delete x m)
unfolding delete insert
delete-insert x id e [] f = ground (arith, eq_iff x id, eq_iff id x, f)
delete-insert x id e ((j, w) ∷ m) f =
    ground (arith, delete-insert x id e m f, eq_iff j id, eq_iff j x, eq_iff x id, eq_iff id x, f)

-- What is left when an id has been appended and the oldest one goes.
trim_appended :
    (max : ℕ) (order : List String) (m : Dict String Entry) (id : String) (e : Entry)
    → 0 < max
    → length order ≤ max
    → contains id order ≡ false
    → trim max (order ++ id ∷ []) (insert id e m) ≡ record {
      entries = insert id e (evict max (order ++ id ∷ []) m).entries;
      order = (evict max (order ++ id ∷ []) m).order;
    }
unfolding trim evict
trim_appended max [] m id e pos l h = rw (over_one max pos, trim, evict) refl
trim_appended max (x ∷ xs) m id e pos l h =
    elim (Bool-cases (ltb max (length (x ∷ xs ++ id ∷ [])))) [
      | inl t ↦
          rw (t, trim, evict)
            (trim-small max (xs ++ id ∷ []) _ (omega (arith, length-append xs (id ∷ []), l))
              ∙ ap (λ (d : Dict String Entry). record { entries = d; order = xs ++ id ∷ [] })
                  (delete-insert x id e m (ground (arith, h))))
      | inr f ↦ rw (f, trim, evict) refl
    ]

agrees_on :
    (max : ℕ) (o : Option Entry) (id : String) (e : Entry) (s : Store)
    → 0 < max
    → length s.order ≤ max
    → contains id s.order ≡ is_some o
    → trim max (appended o id s.order) (insert id e s.entries) ≡ record {
      entries = insert id e (make_room max id o s).entries;
      order = (make_room max id o s).order;
    }
unfolding appended make_room
agrees_on max none id e s pos l h = trim_appended max s.order s.entries id e pos l h
agrees_on max (some old) id e s pos l h = trim-small max s.order (insert id e s.entries) l

-- On a store in step, with room for an entry, saving leaves the same state in the project service,
-- which writes first and then drops while there are too many, as in the runtime, which drops at most
-- one before it writes.
pub save_within-save_memory_within :
    (max now : ℕ) (id hash : String) (result : ℕ) (s : Store)
    → 0 < max
    → InStep max s
    → save_within max now id hash result s ≡ save_memory_within max now id hash result s
unfolding save_within save_memory_within
save_within-save_memory_within max now id hash result s pos i =
    agrees_on max (lookup id s.entries) id (saved now hash result) s pos i.bounded (i.agree id)

over_full :
    (max : ℕ) (xs : List String) (id : String)
    → suc (length xs) ≡ max
    → ltb max (suc (length (xs ++ id ∷ []))) ≡ true
over_full max xs id l = ground (arith, length-append xs (id ∷ []), l)

none-some : {e : Entry} → some e ≡ none → ⊥
none-some h = cc

-- In a full store a new id takes the place of the oldest one, whose entry is gone.
full_evicts :
    (max : ℕ) (x id : String) (xs : List String) (m : Dict String Entry)
    → length (x ∷ xs) ≡ max
    → evict max (x ∷ xs ++ id ∷ []) m ≡ record { entries = delete x m; order = xs ++ id ∷ [] }
unfolding evict
full_evicts max x id xs m l = rw (over_full max xs id l, evict) refl

made_room :
    (max : ℕ) (x id : String) (xs : List String) (s : Store) (o : Option Entry)
    → o ≡ none
    → s.order ≡ x ∷ xs
    → length s.order ≡ max
    → make_room max id o s ≡ record { entries = delete x s.entries; order = xs ++ id ∷ [] }
unfolding make_room
made_room max x id xs s none h q l =
    ap (λ (order : List String). evict max (order ++ id ∷ []) s.entries) q
    ∙ full_evicts max x id xs s.entries (sym (ap (λ (order : List String). length order) q) ∙ l)
made_room max x id xs s (some e) h q l = absurd (none-some h)

-- Saving a new id in a full store forgets the id that was inserted first, and no other: the others
-- keep their entries, and the new one comes last in the order.
pub save_memory_within-oldest :
    (max now : ℕ) (id hash : String) (result : ℕ) (s : Store) (x : String) (xs : List String)
    → beq x id ≡ false
    → lookup id s.entries ≡ none
    → s.order ≡ x ∷ xs
    → length s.order ≡ max
    → let t = save_memory_within max now id hash result s in
      (t.order ≡ xs ++ id ∷ [])
      × (lookup x t.entries ≡ none)
      × ((j : String)
          → beq x j ≡ false
          → beq id j ≡ false
          → lookup j t.entries ≡ lookup j s.entries)
unfolding save_memory_within
save_memory_within-oldest max now id hash result s x xs f h q l =
    let r = made_room max x id xs s (lookup id s.entries) h q l in
    (
      ap (λ (t : Store). t.order) r,
      lookup-insert id x _ _
          ∙ ap
              (λ (t : Store). if beq id x then some (saved now hash result) else lookup x t.entries)
              r
          ∙ ground (arith, lookup-delete x x s.entries, eq_iff x x, eq_iff id x, eq_iff x id, f),
      λ j a b.
          lookup-insert id j _ _
          ∙ ap
              (λ (t : Store). if beq id j then some (saved now hash result) else lookup j t.entries)
              r
          ∙ ground (arith, lookup-delete x j s.entries, a, b),
    )
