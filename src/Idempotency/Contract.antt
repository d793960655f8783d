-- ===== src/Idempotency/Contract.antt =====
-- What both stores promise the handlers.
use df_code_audit.Prelude.{
  ℕ, ◌-◌, ◌≤◌, ◌<◌, String, Bool, true, false, ◌≡◌, refl, sym, ap, subst, ◌∙◌, Option, none, some,
  List, [], ◌∷◌, ◌++◌, arith, if◌then◌else◌, inl, inr, Bool-cases, length, ltb, ◌⊎◌,
}
use df_code_audit.Prelude.Eq.{beq, String_eq, contains}
use df_code_audit.Prelude.Dict.{Dict, lookup, insert, delete, lookup-insert, lookup-delete}
use text.Mathlib.TextEquality.{eq_iff}
use df_code_audit.Idempotency.{
  Entry, Store, Answer, proceed, replay, already_exists, appended, trim, save_within, save, answer,
  check, max_entries, is_past, dedup_window,
}
use df_code_audit.Idempotency.Runtime.{
  IdemState, idem_new, idem_replay, idem_conflict, judge, evict, make_room, save_memory_within,
  save_memory, check_memory,
}
use df_code_audit.Idempotency.Order.{is_some}
use df_code_audit.Idempotency.InStep.{
  InStep, over_one, settle-InStep, save_within-InStep, save_memory_within-InStep,
}

abbrev pub saved : ℕ → String → ℕ → Entry
saved now hash result = record { body_hash = hash; result = result; saved_at = now }

-- An id other than the saved one keeps its entry, or loses it to the bound.
abbrev pub KeptOrGone : Option Entry → Option Entry → Type 0
KeptOrGone before after = (after ≡ before) ⊎ (after ≡ none)

-- A store of answers: what is asked of an id that has just been kept, and of any other id.
pub record Contract : Type 1 where
  pub State : Type 0
  pub Valid : State → Type 0
  pub entry_of : String → State → Option Entry
  pub ask : ℕ → String → String → State → Answer
  pub keep : ℕ → String → String → ℕ → State → State
  -- What asking leaves of the store.
  pub look : ℕ → String → String → State → State
  pub look-Valid : (now : ℕ) (id hash : String) (s : State) → Valid s → Valid (look now id hash s)
  pub keep-Valid :
      (now : ℕ) (id hash : String) (result : ℕ) (s : State)
      → Valid s
      → Valid (keep now id hash result s)
  pub ask-entry_of :
      (now : ℕ) (id hash : String) (s : State)
      → ask now id hash s ≡ answer now id hash (entry_of id s)
  pub entry_of-keep :
      (now : ℕ) (id hash : String) (result : ℕ) (s : State)
      → Valid s
      → entry_of id (keep now id hash result s) ≡ some (saved now hash result)
  pub entry_of-others :
      (now : ℕ) (id hash : String) (result : ℕ) (s : State) (j : String)
      → beq id j ≡ false
      → KeptOrGone (entry_of j s) (entry_of j (keep now id hash result s))

-- For 24 hours a saved id answers the same body with the saved result and refuses another one; after that
-- it is free.
abbrev pub answered : ℕ → ℕ → String → String → String → ℕ → Answer
answered t now id hash hash2 result =
    if ltb dedup_window (now - t)
    then proceed
    else if beq hash hash2
    then replay result
    else already_exists id

pub keep-ask :
    (c : Contract) (t now : ℕ) (id hash hash2 : String) (result : ℕ) (s : c.State)
    → c.Valid s
    → c.ask now id hash2 (c.keep t id hash result s) ≡ answered t now id hash hash2 result
unfolding answer is_past
keep-ask c t now id hash hash2 result s v =
    c.ask-entry_of now id hash2 (c.keep t id hash result s)
    ∙ ap (λ (o : Option Entry). answer now id hash2 o) (c.entry_of-keep t id hash result s v)

trim-last :
    (max : ℕ) (xs : List String) (m : Dict String Entry) (id : String)
    → 0 < max
    → contains id xs ≡ false
    → lookup id (trim max (xs ++ id ∷ []) m).entries ≡ lookup id m
unfolding trim
trim-last max [] m id pos h = rw (over_one max pos, trim) refl
trim-last max (x ∷ xs) m id pos h = elim (Bool-cases (ltb max (length (x ∷ xs ++ id ∷ [])))) [
  | inl t ↦
      rw (t, trim)
        (trim-last max xs (delete x m) id pos (ground (arith, h))
          ∙ lookup-delete x id m
          ∙ ground (arith, h))
  | inr f ↦ rw (f, trim) refl
]

pub under : (max n : ℕ) → n ≤ max → ltb max n ≡ false
under max n l = ground arith

pub trim-small :
    (max : ℕ) (order : List String) (m : Dict String Entry)
    → length order ≤ max
    → trim max order m ≡ record { entries = m; order = order }
unfolding trim
trim-small max [] m l = refl
trim-small max (x ∷ xs) m l = rw (under max (length (x ∷ xs)) l, trim) refl

pub own_insert :
    (id : String) (e : Entry) (m : Dict String Entry) → lookup id (insert id e m) ≡ some e
own_insert id e m = lookup-insert id id e m ∙ ground (arith, eq_iff id id)

appended-kept :
    (max : ℕ) (o : Option Entry) (id : String) (order : List String) (m : Dict String Entry)
    → 0 < max
    → contains id order ≡ is_some o
    → length order ≤ max
    → lookup id (trim max (appended o id order) m).entries ≡ lookup id m
unfolding appended
appended-kept max none id order m pos h l = trim-last max order m id pos h
appended-kept max (some e) id order m pos h l =
    ap (λ (t : Store). lookup id t.entries) (trim-small max order m l)

pub save_within-lookup :
    (max now : ℕ) (id hash : String) (result : ℕ) (s : Store)
    → 0 < max
    → InStep max s
    → lookup id (save_within max now id hash result s).entries ≡ some (saved now hash result)
unfolding save_within
save_within-lookup max now id hash result s pos i =
    appended-kept max (lookup id s.entries) id s.order _ pos (i.agree id) i.bounded
    ∙ own_insert id _ s.entries

gone_or_kept :
    (b : Bool) (before after : Option Entry)
    → KeptOrGone (if b then none else before) after
    → KeptOrGone before after
gone_or_kept true before after (inl e) = inr e
gone_or_kept true before after (inr e) = inr e
gone_or_kept false before after h = h

trim-others :
    (max : ℕ) (order : List String) (m : Dict String Entry) (j : String)
    → KeptOrGone (lookup j m) (lookup j (trim max order m).entries)
unfolding trim
trim-others max [] m j = inl refl
trim-others max (x ∷ xs) m j = elim (Bool-cases (ltb max (length (x ∷ xs)))) [
  | inl t ↦
      rw (t, trim)
        (gone_or_kept (beq x j) (lookup j m) _ (
          subst (λ o. KeptOrGone o (lookup j (trim max xs (delete x m)).entries))
            (lookup-delete x j m) (trim-others max xs (delete x m) j)))
  | inr f ↦ rw (f, trim) (inl refl)
]

other_insert :
    (id j : String) (e : Entry) (m : Dict String Entry)
    → beq id j ≡ false
    → lookup j (insert id e m) ≡ lookup j m
other_insert id j e m f = lookup-insert id j e m ∙ rw f refl

pub save_within-others :
    (max now : ℕ) (id hash : String) (result : ℕ) (s : Store) (j : String)
    → beq id j ≡ false
    → KeptOrGone (lookup j s.entries) (lookup j (save_within max now id hash result s).entries)
unfolding save_within
save_within-others max now id hash result s j f =
    subst (λ o. KeptOrGone o (lookup j (save_within max now id hash result s).entries))
      (other_insert id j (saved now hash result) s.entries f)
      (trim-others max (appended (lookup id s.entries) id s.order) _ j)

-- The store of the project service keeps the contract.
unfoldable pub project_store : Contract
unfolding check save
project_store = record {
  State = Store;
  Valid = InStep max_entries;
  entry_of = λ id s. lookup id s.entries;
  ask = λ now id hash s. (check now id hash s).0;
  keep = save;
  look = λ now id hash s. (check now id hash s).1;
  look-Valid = λ now id hash s i. settle-InStep max_entries now id (lookup id s.entries) s i;
  keep-Valid = λ now id hash result s i. save_within-InStep max_entries now id hash result s i;
  ask-entry_of = λ now id hash s. refl;
  entry_of-keep =
      λ now id hash result s i. save_within-lookup max_entries now id hash result s (omega arith) i;
  entry_of-others =
      λ now id hash result s j f. save_within-others max_entries now id hash result s j f;
}

-- The runtime's states, in the words of the other store.
unfoldable pub as_answer : String → IdemState → Answer
as_answer id idem_new = proceed
as_answer id (idem_replay resp) = replay resp
as_answer id idem_conflict = already_exists id

pub judge-answer :
    (now : ℕ) (id fingerprint : String) (o : Option Entry)
    → as_answer id (judge now fingerprint o) ≡ answer now id fingerprint o
unfolding judge answer as_answer is_past
judge-answer now id fingerprint none = refl
judge-answer now id fingerprint (some e) = ground arith

evict-others :
    (max : ℕ) (order : List String) (m : Dict String Entry) (j : String)
    → KeptOrGone (lookup j m) (lookup j (evict max order m).entries)
unfolding evict
evict-others max [] m j = inl refl
evict-others max (x ∷ xs) m j = elim (Bool-cases (ltb max (length (x ∷ xs)))) [
  | inl t ↦ rw (t, evict) (gone_or_kept (beq x j) (lookup j m) _ (inl (lookup-delete x j m)))
  | inr f ↦ rw (f, evict) (inl refl)
]

make_room-others :
    (max : ℕ) (o : Option Entry) (id : String) (s : Store) (j : String)
    → KeptOrGone (lookup j s.entries) (lookup j (make_room max id o s).entries)
unfolding make_room
make_room-others max none id s j = evict-others max (s.order ++ id ∷ []) s.entries j
make_room-others max (some e) id s j = inl refl

pub save_memory-others :
    (now : ℕ) (id hash : String) (result : ℕ) (s : Store) (j : String)
    → beq id j ≡ false
    → KeptOrGone (lookup j s.entries) (lookup j (save_memory now id hash result s).entries)
unfolding save_memory save_memory_within
save_memory-others now id hash result s j f =
    subst (λ o. KeptOrGone (lookup j s.entries) o) (sym (other_insert id j _ _ f))
      (make_room-others max_entries (lookup id s.entries) id s j)

-- The memory store of the runtime keeps the contract.
unfoldable pub runtime_store : Contract
unfolding check_memory save_memory save_memory_within
runtime_store = record {
  State = Store;
  Valid = InStep max_entries;
  entry_of = λ id s. lookup id s.entries;
  ask = λ now id hash s. as_answer id (check_memory now id hash s);
  keep = save_memory;
  look = λ now id hash s. s;
  look-Valid = λ now id hash s i. i;
  keep-Valid = λ now id hash result s i.
      save_memory_within-InStep max_entries now id hash result s (omega arith) i;
  ask-entry_of = λ now id hash s. judge-answer now id hash (lookup id s.entries);
  entry_of-keep = λ now id hash result s i. own_insert id _ _;
  entry_of-others = λ now id hash result s j f. save_memory-others now id hash result s j f;
}
