-- ===== src/Task/StateMachine/Reach.antt =====
-- What a task goes through: histories of transitions that the state machine validates.
use df_code_audit.Prelude.{true, ◌≡◌, refl, ◌⊎◌, ◌≢◌, subst, arith}
use df_code_audit.Task.Status.{TaskStatus, unspecified, created, pending, completed, cancelled}
use df_code_audit.Task.StateMachine.{new, can_transition}
use df_code_audit.Task.StateMachine.Edges.{◌⟶◌, start, cancel_created, edges, can_transition_iff}

-- A history from one status to another, the statuses in between in order, each step allowed.
pub data History (from : TaskStatus) : TaskStatus → Type 0 where
  here : History from from
  next :
      {mid to : TaskStatus} → History from mid → can_transition new mid to ≡ true → History from to

from_final : {from to : TaskStatus} → (from ≡ completed) ⊎ (from ≡ cancelled) → ¬ (from ⟶ to)
from_final f start = ground arith
from_final f _ = ground arith

edge-InUse : {from to : TaskStatus} → from ⟶ to → (to ≢ unspecified) × (to ≢ pending)
edge-InUse start = ((λ e. cc), λ e. cc)
edge-InUse _ = ((λ e. cc), λ e. cc)

-- Once a task is cancelled or completed it stays so.
pub History-final :
    {from to : TaskStatus} → (from ≡ completed) ⊎ (from ≡ cancelled) → History from to → to ≡ from
History-final f here = refl
History-final {from} f (next {mid} {to} h s) =
    absurd
      (from_final f (subst (λ x. x ⟶ to) (History-final f h) ((can_transition_iff mid to).0 s)))

abbrev pub InUse : TaskStatus → Type 0
InUse s = (s ≢ unspecified) × (s ≢ pending)

-- A task that is created and moves by allowed steps never has the two statuses that are kept for
-- old data.
pub History-InUse : {to : TaskStatus} → History created to → InUse to
History-InUse here = ((λ e. cc), λ e. cc)
History-InUse (next {mid} {to} h s) = edge-InUse ((can_transition_iff mid to).0 s)

cancel_edge :
    (from : TaskStatus)
    → from ≢ unspecified
    → from ≢ completed
    → from ≢ cancelled
    → from ⟶ cancelled
cancel_edge unspecified u c x = absurd (u refl)
cancel_edge completed u c x = absurd (c refl)
cancel_edge cancelled u c x = absurd (x refl)
cancel_edge created u c x = cancel_created
cancel_edge _ u c x = search edges

-- From every status but `unspecified` and the two final ones a task can be cancelled in one step.
pub can_transition-cancelled :
    (from : TaskStatus)
    → from ≢ unspecified
    → from ≢ completed
    → from ≢ cancelled
    → can_transition new from cancelled ≡ true
can_transition-cancelled from u c x = (can_transition_iff from cancelled).1 (cancel_edge from u c x)
