-- ===== src/Examples/Tasks.antt =====
-- The state machine of a task at concrete statuses.
use df_code_audit.Prelude.{true, ◌≡◌, refl, ◌↔◌}
use df_code_audit.Task.Status.{TaskStatus, created, running, completed, failed}
use df_code_audit.Task.StateMachine.{new, can_transition}
use df_code_audit.Task.StateMachine.Edges.{◌⟶◌, can_transition_iff}
use df_code_audit.Task.StateMachine.Reach.{History, here, next}

allowed : (from to : TaskStatus) → from ⟶ to → can_transition new from to ≡ true
allowed from to e = (can_transition_iff from to).1 e

can_transition_iff_example : (can_transition new running failed ≡ true) ↔ (running ⟶ failed)
can_transition_iff_example = can_transition_iff running failed

abbrev stays : History completed completed
stays = here

start_step : can_transition new created running ≡ true
unfolding can_transition new
start_step = refl

fail_step : can_transition new running failed ≡ true
unfolding can_transition new
fail_step = refl

abbrev failing : History created failed
failing = next (next here start_step) fail_step
