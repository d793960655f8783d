-- ===== src/Session/Table.antt =====
-- The table of sessions stays in order.
use df_code_audit.Prelude.{
  ℕ, ◌<◌, String, Bool, true, false, ◌≡◌, refl, sym, ap, subst, ◌∙◌, Option, none, some, [], ◌∷◌,
  arith, ◌⊎◌, if◌then◌else◌, ◌==◌, ==_iff, inl, inr, Bool-cases,
}
use df_code_audit.Prelude.Eq.{beq, String_eq}
use text.Mathlib.TextEquality.{eq_iff}
use df_code_audit.Prelude.Dict.{
  Dict, lookup, insert, delete, lookup-insert, lookup-delete, lookup-nil,
}
use df_code_audit.Session.{
  Session, Manager, write, new_session, new_manager, create_session, get_found, get_session,
  cancel_found, cancel_session, purge_entries, purge, is_expired,
}

abbrev pub DistinctKeys : Dict String ℕ → Type 0
DistinctKeys [] = Unit
DistinctKeys ((k, r) ∷ m) = (lookup k m ≡ none) × DistinctKeys m

-- Each entry points to a session that has been made, with the id of its key.
pub record WellFormed (m : Manager) : Type 0 where
  pub keys : DistinctKeys m.sessions
  pub made : (id : String) (r : ℕ) → lookup id m.sessions ≡ some r → r < m.next
  pub named : (id : String) (r : ℕ) → lookup id m.sessions ≡ some r → (m.heap r).id ≡ id

none-some : {n : ℕ} → none ≡ some n → ⊥
none-some e = cc

some_eq : {m n : ℕ} → some m ≡ some n → m ≡ n
some_eq e = cc

insert-DistinctKeys :
    (k : String) (v : ℕ) (m : Dict String ℕ) → DistinctKeys m → DistinctKeys (insert k v m)
unfolding insert
insert-DistinctKeys k v [] d = (lookup-nil k, tt)
insert-DistinctKeys k v ((j, w) ∷ m) d = elim (Bool-cases (beq j k)) [
  | inl t ↦ rw (t, insert) (subst (λ i. lookup i m ≡ none) ((eq_iff j k).0 t) d.0, d.1)
  | inr t ↦
      rw (t, insert)
        (
          ground (arith, lookup-insert k j v m, eq_iff k j, eq_iff j k, d.0, t),
          insert-DistinctKeys k v m d.1,
        )
]

delete-DistinctKeys : (k : String) (m : Dict String ℕ) → DistinctKeys m → DistinctKeys (delete k m)
unfolding delete
delete-DistinctKeys k [] d = tt
delete-DistinctKeys k ((j, w) ∷ m) d = elim (Bool-cases (beq j k)) [
  | inl t ↦ rw (t, delete) (delete-DistinctKeys k m d.1)
  | inr t ↦ rw (t, delete) (ground (arith, lookup-delete k j m, d.0), delete-DistinctKeys k m d.1)
]

some_case :
    (b : Bool) (v r : ℕ) (o : Option ℕ)
    → (if b then some v else o) ≡ some r
    → ((b ≡ true) × (v ≡ r)) ⊎ (o ≡ some r)
some_case true v r o e = inl (refl, some_eq e)
some_case false v r o e = inr e

-- An entry after an insertion is the new one or an old one.
inserted :
    (m : Dict String ℕ) (k j : String) (v r : ℕ)
    → lookup j (insert k v m) ≡ some r
    → ((beq k j ≡ true) × (v ≡ r)) ⊎ (lookup j m ≡ some r)
inserted m k j v r e = some_case (beq k j) v r (lookup j m) (sym (lookup-insert k j v m) ∙ e)

write_id :
    (heap : ℕ → Session) (r : ℕ) (s : Session) (q : ℕ)
    → s.id ≡ (heap r).id
    → (write heap r s q).id ≡ (heap q).id
write_id heap r s q e = elim (Bool-cases (r == q)) [
  | inl t ↦ rw t (e ∙ ap (λ (k : ℕ). (heap k).id) ((==_iff r q).0 t))
  | inr f ↦ rw f
]

apart : (next r : ℕ) → r < next → (next == r) ≡ false
apart next r h = ground arith

pub create_session-WellFormed :
    (ttl now : ℕ) (session_id task_id : String) (m : Manager)
    → WellFormed m
    → WellFormed (create_session ttl now session_id task_id m).0
unfolding create_session new_session
create_session-WellFormed ttl now session_id task_id m w = record {
  keys = insert-DistinctKeys session_id m.next m.sessions w.keys;
  made = λ j r e. elim (inserted m.sessions session_id j m.next r e) [
    | inl new ↦ omega (arith, new.1)
    | inr old ↦ omega (arith, w.made j r old)
  ];
  named = λ j r e. elim (inserted m.sessions session_id j m.next r e) [
    | inl new ↦ rw ((==_iff m.next r).1 new.1) ((eq_iff session_id j).0 new.0)
    | inr old ↦ rw (apart m.next r (w.made j r old)) (w.named j r old)
  ];
}

marked-WellFormed :
    (m : Manager) (r : ℕ) (s : Session)
    → WellFormed m
    → s.id ≡ (m.heap r).id
    → WellFormed (record m { heap = write m.heap r s })
marked-WellFormed m r s w e = record {
  keys = w.keys;
  made = w.made;
  named = λ j q f. write_id m.heap r s q e ∙ w.named j q f;
}

get_found-WellFormed :
    (now : ℕ) (o : Option ℕ) (m : Manager) → WellFormed m → WellFormed (get_found now o m).0
unfolding get_found
get_found-WellFormed now none m w = w
get_found-WellFormed now (some r) m w = elim (Bool-cases (is_expired now (m.heap r))) [
  | inl t ↦ rw (t, get_found) (marked-WellFormed m r _ w refl)
  | inr t ↦ rw (t, get_found) w
]

cancel_found-WellFormed :
    (o : Option ℕ) (m : Manager) → WellFormed m → WellFormed (cancel_found o m).0
unfolding cancel_found
cancel_found-WellFormed none m w = w
cancel_found-WellFormed (some r) m w = marked-WellFormed m r _ w refl

none_case : (b : Bool) (r : ℕ) (o : Option ℕ) → (if b then none else o) ≡ some r → o ≡ some r
none_case true r o e = cc
none_case false r o e = e

deleted_kept :
    (b : Bool) (id : String) (kept : Dict String ℕ) (j : String) (r : ℕ)
    → lookup j (if b then delete id kept else kept) ≡ some r
    → lookup j kept ≡ some r
deleted_kept true id kept j r e =
    none_case (beq id j) r (lookup j kept) (sym (lookup-delete id j kept) ∙ e)
deleted_kept false id kept j r e = e

-- What a tick leaves was there before.
purge_entries_kept :
    (now : ℕ) (heap : ℕ → Session) (entries kept : Dict String ℕ) (j : String) (r : ℕ)
    → lookup j (purge_entries now heap entries kept) ≡ some r
    → lookup j kept ≡ some r
unfolding purge_entries
purge_entries_kept now heap [] kept j r e = e
purge_entries_kept now heap ((id, q) ∷ entries) kept j r e =
    deleted_kept (is_expired now (heap q)) id kept j r (purge_entries_kept now heap entries _ j r e)

deleted-DistinctKeys :
    (b : Bool) (id : String) (kept : Dict String ℕ)
    → DistinctKeys kept
    → DistinctKeys (if b then delete id kept else kept)
deleted-DistinctKeys true id kept d = delete-DistinctKeys id kept d
deleted-DistinctKeys false id kept d = d

purge_entries-DistinctKeys :
    (now : ℕ) (heap : ℕ → Session) (entries kept : Dict String ℕ)
    → DistinctKeys kept
    → DistinctKeys (purge_entries now heap entries kept)
unfolding purge_entries
purge_entries-DistinctKeys now heap [] kept d = d
purge_entries-DistinctKeys now heap ((id, q) ∷ entries) kept d =
    purge_entries-DistinctKeys now heap entries _
      (deleted-DistinctKeys (is_expired now (heap q)) id kept d)

-- The four operations on the table, as one call.
pub data Call : Type 0 where
  creates : String → String → Call
  gets cancels : String → Call
  ticks : Call

unfoldable pub serve : ℕ → ℕ → Call → Manager → Manager
serve ttl now (creates session_id task_id) m = (create_session ttl now session_id task_id m).0
serve ttl now (gets session_id) m = (get_session now session_id m).0
serve ttl now (cancels session_id) m = (cancel_session session_id m).0
serve ttl now ticks m = purge now m

-- Whatever is called at whatever time, the keys of the table are distinct, and each entry points to a
-- session that has been made and has the id of the entry's key.
pub serve-WellFormed :
    (ttl now : ℕ) (call : Call) (m : Manager) → WellFormed m → WellFormed (serve ttl now call m)
unfolding serve get_session cancel_session purge
serve-WellFormed ttl now (creates session_id task_id) m w =
    create_session-WellFormed ttl now session_id task_id m w
serve-WellFormed ttl now (gets session_id) m w =
    get_found-WellFormed now (lookup session_id m.sessions) m w
serve-WellFormed ttl now (cancels session_id) m w =
    cancel_found-WellFormed (lookup session_id m.sessions) m w
serve-WellFormed ttl now ticks m w = record {
  keys = purge_entries-DistinctKeys now m.heap m.sessions m.sessions w.keys;
  made = λ j r e. w.made j r (purge_entries_kept now m.heap m.sessions m.sessions j r e);
  named = λ j r e. w.named j r (purge_entries_kept now m.heap m.sessions m.sessions j r e);
}

-- The table starts in order.
pub new_manager-WellFormed : WellFormed new_manager
unfolding new_manager
new_manager-WellFormed = record {
  keys = tt;
  made = λ id r e. absurd (none-some (sym (lookup-nil id) ∙ e));
  named = λ id r e. absurd (none-some (sym (lookup-nil id) ∙ e));
}
