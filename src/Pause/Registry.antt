-- ===== src/Pause/Registry.antt =====
-- A pause and the start of a session meet at one gate, whichever comes first.
use df_code_audit.Prelude.{
  ℕ, String, true, ◌≡◌, refl, ◌∙◌, Option, none, some, ==_iff, inl, inr, Bool-cases,
}
use df_code_audit.Prelude.Eq.{String_eq}
use text.Mathlib.TextEquality.{eq_iff}
use df_code_audit.Prelude.Dict.{lookup, lookup-insert}
use df_code_audit.Pause.{PauseGate, pause, Pauses, add_gate, gate_or_new, gate_for, pause_session}

gate_or_new-lookup :
    (task_id : String) (o : Option ℕ) (w : Pauses)
    → lookup task_id w.gates ≡ o
    → lookup task_id (gate_or_new task_id o w).0.gates ≡ some (gate_or_new task_id o w).1
unfolding gate_or_new add_gate
gate_or_new-lookup task_id none w e =
    lookup-insert task_id task_id w.next w.gates ∙ rw ((eq_iff task_id task_id).1 refl) refl
gate_or_new-lookup task_id (some r) w e = e

pause_pauses : (g : PauseGate) → (pause g).paused ≡ true
unfolding pause
pause_pauses g = elim (Bool-cases g.paused) [ inl e ↦ rw e refl | inr e ↦ rw e refl ]

gate_for_found :
    (task_id : String) (r : ℕ) (w : Pauses)
    → lookup task_id w.gates ≡ some r
    → gate_for task_id w ≡ (w, r)
unfolding gate_for gate_or_new
gate_for_found task_id r w e = rw (e, gate_or_new) refl

paused_found :
    (task_id : String) (r : ℕ) (w : Pauses)
    → lookup task_id w.gates ≡ some r
    → ((pause_session task_id w).heap r).paused ≡ true
unfolding pause_session gate_or_new
paused_found task_id r w e = rw (e, gate_or_new, (==_iff r r).1 refl) (pause_pauses (w.heap r))

pause_session-lookup :
    (task_id : String) (w : Pauses)
    → (r : ℕ) × (lookup task_id (pause_session task_id w).gates ≡ some r)
      × (((pause_session task_id w).heap r).paused ≡ true)
unfolding pause_session
pause_session-lookup task_id w =
    let o = lookup task_id w.gates in
    let r = (gate_or_new task_id o w).1 in
    (
      r,
      gate_or_new-lookup task_id o w refl,
      rw ((==_iff r r).1 refl) (pause_pauses ((gate_or_new task_id o w).0.heap r)),
    )

gate_for_registered :
    (task_id : String) (w : Pauses)
    → lookup task_id (gate_for task_id w).0.gates ≡ some (gate_for task_id w).1
unfolding gate_for
gate_for_registered task_id w = gate_or_new-lookup task_id (lookup task_id w.gates) w refl

-- A session that starts after a pause takes a gate that is paused; a session that has taken its gate
-- before sees that gate paused after the pause.
pub pause_session-gate_for :
    (task_id : String) (w : Pauses)
    → (let (w', r) = gate_for task_id (pause_session task_id w) in (w'.heap r).paused ≡ true)
      × (let (w', r) = gate_for task_id w in ((pause_session task_id w').heap r).paused ≡ true)
pause_session-gate_for task_id w =
    let (r, found, paused) = pause_session-lookup task_id w in
    (
      rw (gate_for_found task_id r (pause_session task_id w) found) paused,
      paused_found task_id (gate_for task_id w).1 (gate_for task_id w).0
          (gate_for_registered task_id w),
    )
