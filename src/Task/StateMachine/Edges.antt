-- ===== src/Task/StateMachine/Edges.antt =====
-- The diagram of the task states, as a relation, and the state machine's decision of it.
use df_code_audit.Prelude.{
  Bool, true, false, ◌≡◌, refl, ◌↔◌, ◌≢◌, inl, inr, some, arith, In, Bool-cases,
}
use df_code_audit.Task.Status.{
  TaskStatus, unspecified, created, pending, queued, running, completed, failed, cancelled, timeout,
  dead, paused,
}
use df_code_audit.Task.StateMachine.{
  new, can_transition, validate_transition, get_allowed_transitions, is_terminal,
  failed_precondition,
}

infix 40 ◌⟶◌
pub data ◌⟶◌ : TaskStatus → TaskStatus → Type 0 where
  start : created ⟶ running
  restart : queued ⟶ running
  complete : running ⟶ completed
  fail : running ⟶ failed
  auto_retry : failed ⟶ queued
  exhaust : failed ⟶ dead
  time_out : running ⟶ timeout
  pause : running ⟶ paused
  resume : paused ⟶ running
  cancel_created : created ⟶ cancelled
  cancel_pending : pending ⟶ cancelled
  cancel_queued : queued ⟶ cancelled
  cancel_running : running ⟶ cancelled
  cancel_failed : failed ⟶ cancelled
  cancel_timeout : timeout ⟶ cancelled
  cancel_dead : dead ⟶ cancelled
  cancel_paused : paused ⟶ cancelled

pub ruleset edges = (
  start, restart, complete, fail, auto_retry, exhaust, time_out, pause, resume, cancel_created,
  cancel_pending, cancel_queued, cancel_running, cancel_failed, cancel_timeout, cancel_dead,
  cancel_paused,
)

-- The diagram as a table.
abbrev pub is_edge : TaskStatus → TaskStatus → Bool
is_edge created running = true
is_edge queued running = true
is_edge running completed = true
is_edge running failed = true
is_edge failed queued = true
is_edge failed dead = true
is_edge running timeout = true
is_edge running paused = true
is_edge paused running = true
is_edge created cancelled = true
is_edge pending cancelled = true
is_edge queued cancelled = true
is_edge running cancelled = true
is_edge failed cancelled = true
is_edge timeout cancelled = true
is_edge dead cancelled = true
is_edge paused cancelled = true
is_edge _ _ = false

can_transition-is_edge : (from to : TaskStatus) → can_transition new from to ≡ is_edge from to
unfolding can_transition new
can_transition-is_edge unspecified unspecified = refl
can_transition-is_edge created unspecified = refl
can_transition-is_edge pending unspecified = refl
can_transition-is_edge queued unspecified = refl
can_transition-is_edge running unspecified = refl
can_transition-is_edge completed unspecified = refl
can_transition-is_edge failed unspecified = refl
can_transition-is_edge cancelled unspecified = refl
can_transition-is_edge timeout unspecified = refl
can_transition-is_edge dead unspecified = refl
can_transition-is_edge paused unspecified = refl
can_transition-is_edge _ _ = refl

sound : (from to : TaskStatus) → is_edge from to ≡ true → from ⟶ to
sound created running h = start
sound queued running h = restart
sound running completed h = complete
sound running failed h = fail
sound failed queued h = auto_retry
sound failed dead h = exhaust
sound running timeout h = time_out
sound running paused h = pause
sound paused running h = resume
sound created cancelled h = cancel_created
sound pending cancelled h = cancel_pending
sound queued cancelled h = cancel_queued
sound running cancelled h = cancel_running
sound failed cancelled h = cancel_failed
sound timeout cancelled h = cancel_timeout
sound dead cancelled h = cancel_dead
sound paused cancelled h = cancel_paused
sound _ _ h = cc

is_edge_lem : {from to : TaskStatus} → from ⟶ to → is_edge from to ≡ true
is_edge_lem start = refl
is_edge_lem _ = refl

-- The table that `New` builds allows exactly the edges of the diagram.
pub can_transition_iff : (from to : TaskStatus) → (can_transition new from to ≡ true) ↔ (from ⟶ to)
can_transition_iff from to = rw can_transition-is_edge (sound from to, is_edge_lem)

-- Validation reports an error, with the two statuses, exactly where the diagram has no edge.
pub validate_transition_error :
    (from to : TaskStatus)
    → (validate_transition new from to ≡ some (failed_precondition from to)) ↔ (¬ (from ⟶ to))
unfolding validate_transition
validate_transition_error from to = elim (Bool-cases (can_transition new from to)) [
  | inl e ↦ rw e ((λ h. cc), λ h. absurd (h ((can_transition_iff from to).0 e)))
  | inr e ↦ rw e ((λ h edge. cc ((can_transition_iff from to).1 edge)), λ h. refl)
]

allowed_sound :
    (from to : TaskStatus) → In to (get_allowed_transitions new from) → is_edge from to ≡ true
unfolding get_allowed_transitions new
allowed_sound unspecified to h = ground arith
allowed_sound _ to h = ground arith

allowed_complete :
    (from to : TaskStatus) → is_edge from to ≡ true → In to (get_allowed_transitions new from)
unfolding get_allowed_transitions new
allowed_complete unspecified to h = ground arith
allowed_complete _ to h = ground arith

-- The list of allowed statuses holds exactly those to which the diagram leads.
pub get_allowed_transitions_iff :
    (from to : TaskStatus) → In to (get_allowed_transitions new from) ↔ (from ⟶ to)
get_allowed_transitions_iff from to =
    ((λ h. sound from to (allowed_sound from to h)), λ e. allowed_complete from to (is_edge_lem e))

terminal_forward : {from to : TaskStatus} → from ⟶ to → is_terminal from ≡ true → to ≡ cancelled
unfolding is_terminal
terminal_forward start h = cc
terminal_forward _ h = first_of (cc, ground arith)

terminal_backward :
    (from : TaskStatus)
    → from ≢ unspecified
    → from ≢ pending
    → ((to : TaskStatus) → from ⟶ to → to ≡ cancelled)
    → is_terminal from ≡ true
unfolding is_terminal
terminal_backward unspecified u p h = absurd (u refl)
terminal_backward pending u p h = absurd (p refl)
terminal_backward created u p h = cc (h running start)
terminal_backward queued u p h = cc (h running restart)
terminal_backward running u p h = cc (h failed fail)
terminal_backward failed u p h = cc (h queued auto_retry)
terminal_backward paused u p h = cc (h running resume)
terminal_backward completed u p h = refl
terminal_backward _ u p h = refl

-- Of the states in use, `IsTerminal` picks those that no edge leaves but a cancellation.
pub is_terminal_iff :
    (from : TaskStatus)
    → from ≢ unspecified
    → from ≢ pending
    → (is_terminal from ≡ true) ↔ ((to : TaskStatus) → from ⟶ to → to ≡ cancelled)
is_terminal_iff from u p = ((λ h to e. terminal_forward e h), terminal_backward from u p)
