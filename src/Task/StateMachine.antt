-- ===== src/Task/StateMachine.antt =====
-- engine/services/task-service/internal/statemachine/statemachine.go. The lock is left out: every
-- method reads or writes the table under it.
pub mod Edges
pub mod Reach
use df_code_audit.Prelude.{
  String, Bool, true, false, Option, none, some, List, [], ◌∷◌, map, if◌then◌else◌, ◌≡◌, refl,
}
use df_code_audit.Prelude.Dict.{Dict, lookup, insert}
use df_code_audit.Task.Status.{
  TaskStatus, unspecified, created, pending, queued, running, completed, failed, cancelled, timeout,
  dead, paused, status_beq, TaskStatus_eq,
}

-- transitions[from][to] is the RPC that triggers the change.
pub record StateMachine : Type 0 where
  pub transitions : Dict TaskStatus (Dict TaskStatus String)

-- Reading a missing key of a Go map gives the nil map.
abbrev pub targets_of : Option (Dict TaskStatus String) → Dict TaskStatus String
targets_of none = []
targets_of (some targets) = targets

unfoldable pub add_transition : TaskStatus → TaskStatus → String → StateMachine → StateMachine
unfolding lookup insert
add_transition from to rpc sm = record {
  transitions =
      insert from (insert to rpc (targets_of (lookup from sm.transitions))) sm.transitions;
}

unfoldable pub add_cancellations : List TaskStatus → StateMachine → StateMachine
unfolding add_transition
add_cancellations [] sm = sm
add_cancellations (s ∷ statuses) sm =
    add_cancellations statuses (add_transition s cancelled "CancelScanTask" sm)

abbrev pub all_statuses : List TaskStatus
all_statuses = created ∷ pending ∷ queued ∷ running ∷ failed ∷ timeout ∷ dead ∷ []

unfoldable pub register_transitions : StateMachine → StateMachine
unfolding add_transition add_cancellations
register_transitions sm =
    let sm = add_transition created running "StartTask" sm in
    let sm = add_transition queued running "StartTask" sm in
    let sm = add_transition running completed "CompleteTask" sm in
    let sm = add_transition running failed "FailTask" sm in
    let sm = add_transition failed queued "AutoRetry" sm in
    let sm = add_transition failed dead "RetryExhausted" sm in
    let sm = add_transition running timeout "ReconcileTimeout" sm in
    let sm = add_cancellations all_statuses sm in
    let sm = add_transition running paused "PauseTask" sm in
    let sm = add_transition paused running "ResumeTask" sm in
    add_transition paused cancelled "CancelScanTask" sm

unfoldable pub new : StateMachine
unfolding register_transitions
new = register_transitions (record { transitions = [] })

abbrev pub is_some {ℓ} : {A : Type ℓ} → Option A → Bool
is_some none = false
is_some (some a) = true

unfoldable pub can_transition : StateMachine → TaskStatus → TaskStatus → Bool
unfolding lookup
can_transition sm from to =
    if status_beq from unspecified
    then false
    else if status_beq from to
    then false
    else is_some (lookup to (targets_of (lookup from sm.transitions)))

-- "" and false for a pair with no entry, `none` here.
unfoldable pub get_transition_rpc : StateMachine → TaskStatus → TaskStatus → Option String
unfolding lookup
get_transition_rpc sm from to = lookup to (targets_of (lookup from sm.transitions))

-- A refusal is codes.FailedPrecondition, with the two statuses in its message.
pub data TransitionError : Type 0 where
  failed_precondition : TaskStatus → TaskStatus → TransitionError

unfoldable pub validate_transition : StateMachine → TaskStatus → TaskStatus → Option TransitionError
unfolding can_transition
validate_transition sm from to =
    if can_transition sm from to then none else some (failed_precondition from to)

unfoldable pub get_allowed_transitions : StateMachine → TaskStatus → List TaskStatus
unfolding lookup
get_allowed_transitions sm from =
    map (λ (entry : TaskStatus × String). entry.0) (targets_of (lookup from sm.transitions))

unfoldable pub is_terminal : TaskStatus → Bool
is_terminal completed = true
is_terminal cancelled = true
is_terminal timeout = true
is_terminal dead = true
is_terminal _ = false

start_allowed : can_transition new created running ≡ true
unfolding can_transition new
start_allowed = refl

retry_rpc : get_transition_rpc new failed queued ≡ some "AutoRetry"
unfolding get_transition_rpc new
retry_rpc = refl
