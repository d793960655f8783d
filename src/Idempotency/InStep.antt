-- ===== src/Idempotency/InStep.antt =====
-- The order of a store holds each id of its entries once, and no more ids than the bound.
use df_code_audit.Prelude.{
  ℕ, ◌≤◌, ◌<◌, String, true, false, ◌&&◌, ◌||◌, not, ◌≡◌, refl, sym, ap, subst, ◌∙◌, Option, none,
  some, List, [], ◌∷◌, ◌++◌, arith, inl, inr, Bool-cases, length, ltb, length-append,
}
use df_code_audit.Prelude.Eq.{beq, String_eq, contains, Distinct, contains-append, Distinct-snoc}
use df_code_audit.Prelude.Dict.{Dict, lookup, insert, delete, lookup-nil}
use text.Mathlib.TextEquality.{eq_iff}
use df_code_audit.Idempotency.{
  Entry, Store, new_store, appended, trim, save_within, save, delete_locked, remove_first,
  clear_found, clear_expired, settle, is_past, entry_beq, max_entries,
}
use df_code_audit.Idempotency.Runtime.{evict, make_room, save_memory_within, save_memory}
use df_code_audit.Idempotency.Order.{
  is_some, Agree, contains-remove_first, remove_first-Distinct, is_some-insert, is_some-delete,
  Agree-tail,
}

pub record InStep (max : ℕ) (s : Store) : Type 0 where
  pub once : Distinct s.order
  pub agree : Agree s.order s.entries
  pub bounded : length s.order ≤ max

appended-contains :
    (o : Option Entry) (id k : String) (order : List String)
    → is_some o ≡ contains id order
    → contains k (appended o id order) ≡ (beq id k || contains k order)
unfolding appended
appended-contains none id k order h = ground (arith, contains-append k order (id ∷ []))
appended-contains (some e) id k order h = elim (Bool-cases (beq id k)) [
  | inl t ↦ rw t (subst (λ y. contains y order ≡ true) ((eq_iff id k).0 t) (sym h))
  | inr f ↦ ground (arith, f)
]

appended-Distinct :
    (o : Option Entry) (id : String) (order : List String)
    → is_some o ≡ contains id order
    → Distinct order
    → Distinct (appended o id order)
unfolding appended
appended-Distinct none id order h d = Distinct-snoc order id (sym h) d
appended-Distinct (some e) id order h d = d

trim-InStep :
    (max : ℕ) (order : List String) (entries : Dict String Entry)
    → Distinct order
    → Agree order entries
    → InStep max (trim max order entries)
unfolding trim
trim-InStep max [] entries d a = record { once = tt; agree = a; bounded = omega arith }
trim-InStep max (x ∷ xs) entries d a = elim (Bool-cases (ltb max (length (x ∷ xs)))) [
  | inl t ↦ rw (t, trim) (trim-InStep max xs (delete x entries) d.1 (Agree-tail x xs entries d a))
  | inr f ↦ rw (f, trim) (record { once = d; agree = a; bounded = ground (arith, f) })
]

pub save_within-InStep :
    (max now : ℕ) (id hash : String) (result : ℕ) (s : Store)
    → InStep max s
    → InStep max (save_within max now id hash result s)
unfolding save_within
save_within-InStep max now id hash result s i =
    trim-InStep max _ _ (appended-Distinct _ id s.order (sym (i.agree id)) i.once) (λ k.
      appended-contains _ id k s.order (sym (i.agree id))
      ∙ ap (λ b. beq id k || b) (i.agree k)
      ∙ sym (is_some-insert id k _ s.entries))

length-remove_first : (id : String) (xs : List String) → length (remove_first id xs) ≤ length xs
unfolding remove_first
length-remove_first id [] = omega arith
length-remove_first id (x ∷ xs) = ground (arith, length-remove_first id xs)

delete_locked-InStep :
    (max : ℕ) (id : String) (s : Store) → InStep max s → InStep max (delete_locked id s)
unfolding delete_locked
delete_locked-InStep max id s i = record {
  once = remove_first-Distinct id s.order i.once;
  agree = λ k.
      contains-remove_first id k s.order i.once
      ∙ ap (λ b. not (beq id k) && b) (i.agree k)
      ∙ sym (is_some-delete id k s.entries);
  bounded = omega (arith, length-remove_first id s.order, i.bounded);
}

clear_found-InStep :
    (max : ℕ) (o : Option Entry) (existing : Entry) (id : String) (s : Store)
    → InStep max s
    → InStep max (clear_found o existing id s)
unfolding clear_found
clear_found-InStep max none existing id s i = i
clear_found-InStep max (some cur) existing id s i = elim (Bool-cases (entry_beq cur existing)) [
  | inl t ↦ rw (t, clear_found) (delete_locked-InStep max id s i)
  | inr f ↦ rw (f, clear_found) i
]

pub settle-InStep :
    (max now : ℕ) (id : String) (read : Option Entry) (s : Store)
    → InStep max s
    → InStep max (settle now id read s)
unfolding settle clear_expired
settle-InStep max now id none s i = i
settle-InStep max now id (some e) s i = elim (Bool-cases (is_past now e)) [
  | inl t ↦ rw (t, settle, clear_expired) (clear_found-InStep max _ e id s i)
  | inr f ↦ rw (f, settle) i
]

pub new_store-InStep : (max : ℕ) → InStep max new_store
unfolding new_store
new_store-InStep max = record {
  once = tt;
  agree = λ k. sym (ap (λ o. is_some o) (lookup-nil k));
  bounded = omega arith;
}

pub over_one : (max : ℕ) → 0 < max → ltb max 1 ≡ false
over_one max pos = ground arith

pub room :
    (max : ℕ) (xs : List String) (id : String)
    → ltb max (length (xs ++ id ∷ [])) ≡ false
    → length xs < max
room max xs id f = ground (arith, length-append xs (id ∷ []), f)

-- An id at the end of the order, with room for it.
added-InStep :
    (max : ℕ) (order : List String) (m : Dict String Entry) (id : String) (e : Entry)
    → length order < max
    → Distinct order
    → Agree order m
    → contains id order ≡ false
    → InStep max (record { entries = insert id e m; order = order ++ id ∷ [] })
added-InStep max order m id e room d a h = record {
  once = Distinct-snoc order id h d;
  agree = λ k. contains-append k order (id ∷ []) ∙ ground (arith, a k, is_some-insert id k e m);
  bounded = omega (arith, length-append order (id ∷ []), room);
}

evict-InStep :
    (max : ℕ) (order : List String) (entries : Dict String Entry) (id : String) (e : Entry)
    → 0 < max
    → length order ≤ max
    → Distinct order
    → Agree order entries
    → contains id order ≡ false
    → InStep max (record {
      entries = insert id e (evict max (order ++ id ∷ []) entries).entries;
      order = (evict max (order ++ id ∷ []) entries).order;
    })
unfolding evict
evict-InStep max [] entries id e pos l d a h =
    rw (over_one max pos, evict) (added-InStep max [] entries id e pos d a h)
evict-InStep max (x ∷ xs) entries id e pos l d a h =
    elim (Bool-cases (ltb max (length (x ∷ xs ++ id ∷ [])))) [
      | inl t ↦
          rw (t, evict)
            (added-InStep max xs (delete x entries) id e l d.1 (Agree-tail x xs entries d a)
              (ground (arith, h)))
      | inr f ↦
          rw (f, evict) (added-InStep max (x ∷ xs) entries id e (room max (x ∷ xs) id f) d a h)
    ]

kept_write :
    (max : ℕ) (s : Store) (id : String) (e : Entry)
    → is_some (lookup id s.entries) ≡ true
    → InStep max s
    → InStep max (record s { entries = insert id e s.entries })
kept_write max s id e h i = record {
  once = i.once;
  agree = λ k.
      i.agree k
      ∙ sym (
          is_some-insert id k e s.entries ∙ elim (Bool-cases (beq id k)) [
            | inl t ↦
                rw t (sym (subst (λ y. is_some (lookup y s.entries) ≡ true) ((eq_iff id k).0 t) h))
            | inr f ↦ ground (arith, f)
          ]);
  bounded = i.bounded;
}

saved-InStep :
    (max : ℕ) (o : Option Entry) (id : String) (e : Entry) (s : Store)
    → 0 < max
    → lookup id s.entries ≡ o
    → InStep max s
    → InStep max (record {
      entries = insert id e (make_room max id o s).entries;
      order = (make_room max id o s).order;
    })
unfolding make_room
saved-InStep max none id e s pos h i =
    evict-InStep max s.order s.entries id e pos i.bounded i.once i.agree
      (i.agree id ∙ ap (λ o. is_some o) h)
saved-InStep max (some old) id e s pos h i = kept_write max s id e (ap (λ o. is_some o) h) i

pub save_memory_within-InStep :
    (max now : ℕ) (id hash : String) (result : ℕ) (s : Store)
    → 0 < max
    → InStep max s
    → InStep max (save_memory_within max now id hash result s)
unfolding save_memory_within
save_memory_within-InStep max now id hash result s pos i =
    saved-InStep max (lookup id s.entries) id _ s pos refl i

-- What requests do to a store: a save of either store, or the second section of a check that had read
-- some entry, at some time.
pub data Act : Type 0 where
  saves saves_in_memory : ℕ → String → String → ℕ → Act
  settles : ℕ → String → Option Entry → Act

unfoldable pub act : Act → Store → Store
act (saves now id hash result) s = save now id hash result s
act (saves_in_memory now id hash result) s = save_memory now id hash result s
act (settles now id read) s = settle now id read s

unfoldable pub acts : List Act → Store
acts [] = new_store
acts (a ∷ list) = act a (acts list)

act-InStep : (a : Act) (s : Store) → InStep max_entries s → InStep max_entries (act a s)
unfolding act save save_memory
act-InStep (saves now id hash result) s i = save_within-InStep max_entries now id hash result s i
act-InStep (saves_in_memory now id hash result) s i =
    save_memory_within-InStep max_entries now id hash result s (omega arith) i
act-InStep (settles now id read) s i = settle-InStep max_entries now id read s i

-- After any sequence of saves and of second sections of checks, in any interleaving and with whatever
-- entry the check had read, the order holds each id of the entries once and no other, and at most
-- 10,000 of them.
pub acts-InStep : (list : List Act) → InStep max_entries (acts list)
unfolding acts
acts-InStep [] = new_store-InStep max_entries
acts-InStep (a ∷ list) = act-InStep a (acts list) (acts-InStep list)
