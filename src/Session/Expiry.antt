-- ===== src/Session/Expiry.antt =====
-- How sessions end.
use df_code_audit.Prelude.{
  ℕ, ◌+◌, String, Bool, true, false, ◌≡◌, refl, sym, ap, subst, ◌∙◌, Option, none, some, [], ◌∷◌,
  if◌then◌else◌, ltb, ==_iff, inl, inr, Bool-cases,
}
use df_code_audit.Prelude.Eq.{beq, String_eq}
use text.Mathlib.TextEquality.{eq_iff}
use df_code_audit.Prelude.Dict.{Dict, lookup, delete, lookup-insert, lookup-delete, lookup-nil}
use df_code_audit.Session.{
  Session, Manager, active, GetResult, found, session_not_found, session_expired, new_session,
  create_session, get_found, get_session, purge_entries, purge, is_expired, get_status,
}
use df_code_audit.Session.Table.{WellFormed, DistinctKeys}

-- The answer of a lookup, by the session that the table points to.
get_found-answer :
    (now r : ℕ) (m : Manager)
    → (get_found now (some r) m).1
      ≡ (if is_expired now (m.heap r) then session_expired else found r)
unfolding get_found
get_found-answer now r m = elim (Bool-cases (is_expired now (m.heap r))) [
  | inl t ↦ rw (t, get_found) refl
  | inr t ↦ rw (t, get_found) refl
]

get_found-none : (now : ℕ) (m : Manager) → (get_found now none m).1 ≡ session_not_found
unfolding get_found
get_found-none now m = refl

-- A session that has just been made is active and without a sandbox. It is found under its id up to
-- its time to live, and from then on reported as expired.
pub create_session-get :
    (ttl now later : ℕ) (session_id task_id : String) (m : Manager)
    → let (made, r) = create_session ttl now session_id task_id m in
      (get_status (made.heap r) ≡ (active, 0))
      × ((get_session later session_id made).1
          ≡ (if ltb (now + ttl) later then session_expired else found r))
unfolding create_session get_session get_status new_session
create_session-get ttl now later session_id task_id m =
    let here = lookup-insert session_id session_id m.next m.sessions in
    let own = (==_iff m.next m.next).1 refl in
    (
      rw own refl,
      rw (here, (eq_iff session_id session_id).1 refl)
          (get_found-answer later m.next _ ∙ rw own refl),
    )

abbrev expired_at : ℕ → (ℕ → Session) → Option ℕ → Bool
expired_at now heap none = false
expired_at now heap (some r) = is_expired now (heap r)

lookup-deleted :
    (b : Bool) (id j : String) (kept : Dict String ℕ)
    → lookup j (if b then delete id kept else kept)
      ≡ (if b then (if beq id j then none else lookup j kept) else lookup j kept)
lookup-deleted true id j kept = lookup-delete id j kept
lookup-deleted false id j kept = refl

lookup_cons :
    (id j : String) (q : ℕ) (m : Dict String ℕ)
    → lookup j ((id, q) ∷ m) ≡ (if beq id j then some q else lookup j m)
unfolding lookup
lookup_cons id j q m = refl

same_kept :
    (b c : Bool) (o : Option ℕ) → (if b then none else if c then o else o) ≡ (if b then none else o)
same_kept true c o = refl
same_kept false true o = refl
same_kept false false o = refl

-- A tick over a table with distinct keys takes away the entries of the sessions past their time.
purge_entries-lookup :
    (now : ℕ) (heap : ℕ → Session) (entries kept : Dict String ℕ) (j : String)
    → DistinctKeys entries
    → lookup j (purge_entries now heap entries kept)
      ≡ (if expired_at now heap (lookup j entries) then none else lookup j kept)
unfolding purge_entries
purge_entries-lookup now heap [] kept j d = rw (lookup-nil j) refl
purge_entries-lookup now heap ((id, q) ∷ entries) kept j d =
    purge_entries-lookup now heap entries _ j d.1
    ∙ rw (lookup-deleted (is_expired now (heap q)) id j kept, lookup_cons id j q entries)
        (elim (Bool-cases (beq id j)) [
          | inl t ↦ rw (t, subst (λ k. lookup k entries ≡ none) ((eq_iff id j).0 t) d.0) refl
          | inr f ↦ rw f (same_kept _ (is_expired now (heap q)) (lookup j kept))
        ])

-- What a caller is told after the janitor: an expired session is no longer known.
abbrev pub forgotten : GetResult → GetResult
forgotten (found r) = found r
forgotten session_not_found = session_not_found
forgotten session_expired = session_not_found

answer_of : ℕ → Option ℕ → Manager → GetResult
answer_of now none m = session_not_found
answer_of now (some r) m = if is_expired now (m.heap r) then session_expired else found r

get_found-answer_of :
    (now : ℕ) (o : Option ℕ) (m : Manager) → (get_found now o m).1 ≡ answer_of now o m
unfolding answer_of
get_found-answer_of now none m = get_found-none now m
get_found-answer_of now (some r) m = get_found-answer now r m

forgotten_answer :
    (now : ℕ) (o : Option ℕ) (m : Manager) (table : Dict String ℕ)
    → answer_of now (if expired_at now m.heap o then none else o) (record m { sessions = table })
      ≡ forgotten (answer_of now o m)
unfolding answer_of
forgotten_answer now none m table = refl
forgotten_answer now (some r) m table = elim (Bool-cases (is_expired now (m.heap r))) [
  | inl t ↦ rw t refl
  | inr f ↦ rw f (rw f refl)
]

-- A tick of the janitor changes no answer but one: a lookup that told that the session has expired now
-- tells that there is none.
pub purge-get :
    (now : ℕ) (session_id : String) (m : Manager)
    → WellFormed m
    → (get_session now session_id (purge now m)).1 ≡ forgotten (get_session now session_id m).1
unfolding get_session purge
purge-get now session_id m w =
    get_found-answer_of now _ _
    ∙ rw (purge_entries-lookup now m.heap m.sessions m.sessions session_id w.keys)
        (forgotten_answer now (lookup session_id m.sessions) m _)
    ∙ ap forgotten (sym (get_found-answer_of now (lookup session_id m.sessions) m))
