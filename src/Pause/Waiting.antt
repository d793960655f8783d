-- ===== src/Pause/Waiting.antt =====
-- The calls on a gate and the callers that wait at it.
use df_code_audit.Prelude.{
  ℕ, suc, ◌<◌, Bool, true, false, ◌≡◌, refl, sym, subst, ◌⊎◌, Option, none, some, List, [], ◌∷◌,
  arith, inl, inr, Bool-cases,
}
use df_code_audit.Prelude.Eq.{contains, ℕ_eq}
use df_code_audit.Pause.{PauseGate, new_pause_gate, pause, resume}

pub data Call : Type 0 where
  pauses resumes : Call

unfoldable pub run_calls : List Call → PauseGate → Option PauseGate
run_calls [] g = some g
run_calls (pauses ∷ calls) g = run_calls calls (pause g)
run_calls (resumes ∷ calls) g = elim (resume g) [ none ↦ none | some g' ↦ run_calls calls g' ]

-- The gate's channel has been made, and it is open while the gate is paused; what is closed has been
-- made.
pub record WellFormed (g : PauseGate) : Type 0 where
  pub wake_made : g.wake < g.made
  pub still_open : g.paused ≡ true → contains g.wake g.closed ≡ false
  pub closed_made : (c : ℕ) → contains c g.closed ≡ true → c < g.made

pub new_pause_gate-WellFormed : WellFormed new_pause_gate
unfolding new_pause_gate
new_pause_gate-WellFormed = record {
  wake_made = omega arith;
  still_open = λ e. refl;
  closed_made = λ c e. cc;
}

irreflexive : (n : ℕ) → n < n → ⊥
irreflexive n h = omega (arith, h)

not_closed : (g : PauseGate) → WellFormed g → contains g.made g.closed ≡ false
not_closed g w = elim (Bool-cases (contains g.made g.closed)) [
  | inl e ↦ absurd (irreflexive g.made (w.closed_made g.made e))
  | inr e ↦ e
]

abbrev paused_anew : PauseGate → PauseGate
paused_anew g = record g { paused = true; wake = g.made; made = suc g.made }

abbrev released : PauseGate → PauseGate
released g = record g { paused = false; closed = g.wake ∷ g.closed }

pause_again : (g : PauseGate) → g.paused ≡ true → pause g ≡ g
unfolding pause
pause_again g e = rw e refl

pause_idle : (g : PauseGate) → g.paused ≡ false → pause g ≡ paused_anew g
unfolding pause
pause_idle g e = rw e refl

paused_anew-WellFormed : (g : PauseGate) → WellFormed g → WellFormed (paused_anew g)
paused_anew-WellFormed g w = record {
  wake_made = omega arith;
  still_open = λ e. not_closed g w;
  closed_made = λ c e. omega (arith, w.closed_made c e);
}

-- A caller that took channel `c` goes on once it is closed; till then the gate is paused on `c`.
abbrev pub Held : ℕ → PauseGate → Type 0
Held c g = (contains c g.closed ≡ true) ⊎ ((g.paused ≡ true) × (g.wake ≡ c))

abbrev pub is_resume : Call → Bool
is_resume pauses = false
is_resume resumes = true

pub pause-WellFormed : (g : PauseGate) → WellFormed g → WellFormed (pause g)
pause-WellFormed g w = elim (Bool-cases g.paused) [
  | inl e ↦ subst WellFormed (sym (pause_again g e)) w
  | inr e ↦ subst WellFormed (sym (pause_idle g e)) (paused_anew-WellFormed g w)
]

-- Whether the gate is paused after some calls.
abbrev pub paused_after : List Call → Bool → Bool
paused_after [] p = p
paused_after (pauses ∷ calls) p = paused_after calls true
paused_after (resumes ∷ calls) p = paused_after calls false
