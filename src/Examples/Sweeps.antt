-- ===== src/Examples/Sweeps.antt =====
-- The reconciler on a store that is a list of tasks.
use df_code_audit.Prelude.{
  ℕ, ◌+◌, ◌<◌, String, true, false, ◌≡◌, refl, ◌↔◌, none, some, List, [], ◌∷◌, if◌then◌else◌,
}
use df_code_audit.Prelude.Eq.{beq, String_eq}
use df_code_audit.Task.Status.{TaskStatus, running, timeout, status_beq}
use df_code_audit.Task.Reconciler.{
  ScanTask, TaskStore, Reconciler, probe, is_stale, reconcile, scan, mark_timeout, last_activity,
}
use df_code_audit.Task.Reconciler.Sweep.{is_stale_iff}
use df_code_audit.Prelude.Dict.{Dict, lookup, insert}
use df_code_audit.Task.StateMachine.{
  new, validate_transition, can_transition, register_transitions, add_transition, add_cancellations,
}
use df_code_audit.Task.Reconciler.Service.{
  Task, get_running_tasks, transition, update_found, update_task_status, task_service, Once,
  swept_entry, reconcile-swept,
}

-- The store: the status of each task; of two tasks it knows the time of the last update.
abbrev Board : Type 0
Board = String → TaskStatus

abbrev listed : String → ℕ → TaskStatus → List ScanTask → List ScanTask
listed id at s rest =
    if status_beq s running then record { task_id = id; updated_at = at } ∷ rest else rest

abbrev board_store : TaskStore Board
board_store = record {
  get_running_tasks =
      λ s. listed "old" 0 (s "old") (listed "young" 1_800_000_000_000 (s "young") []);
  update_task_status = λ id st s. ((λ j. if beq id j then st else s j), true);
}

abbrev all_running : Board
all_running id = running

abbrev clocked : Reconciler
clocked = record {
  limit = 1_800_000_000_000;
  activity_lookup = some (λ id. if beq id "old" then none else some 1_900_000_000_000);
  has_on_timeout = true;
  running = false;
  stop_closed = false;
}

is_stale_iff_example :
    (is_stale clocked 1_900_000_000_000 (record { task_id = "old"; updated_at = 0 }) ≡ true) ↔ (
      (0 + 1_800_000_000_000 < 1_900_000_000_000)
      × ((ts : ℕ)
          → probe clocked.activity_lookup "old" ≡ some ts
          → ts + 1_800_000_000_000 < 1_900_000_000_000))
is_stale_iff_example =
    is_stale_iff clocked 1_900_000_000_000 (record { task_id = "old"; updated_at = 0 })

timed_out_once :
    (reconcile board_store clocked 1_900_000_000_000 all_running).compensated ≡ "old" ∷ []
unfolding reconcile scan mark_timeout is_stale last_activity
timed_out_once = refl

abbrev two_tasks : Dict String Task
two_tasks =
    ("old", record { status = running; updated_at = 0 })
    ∷ ("young", record { status = running; updated_at = 1_800_000_000_000 })
    ∷ []

two_tasks-Once : Once clocked 1_900_000_000_000 two_tasks
unfolding lookup
two_tasks-Once = (refl, (refl, tt))

old_times_out :
    lookup "old"
      (reconcile (task_service 1_900_000_000_000) clocked 1_900_000_000_000 two_tasks).store
    ≡ some (record { status = timeout; updated_at = 1_900_000_000_000 })
unfolding reconcile scan mark_timeout is_stale last_activity lookup insert get_running_tasks
    update_task_status update_found transition validate_transition can_transition new
    register_transitions add_transition add_cancellations
old_times_out = refl

reconcile-swept_example :
    lookup "old"
      (reconcile (task_service 1_900_000_000_000) clocked 1_900_000_000_000 two_tasks).store
    ≡ swept_entry clocked 1_900_000_000_000 "old" (lookup "old" two_tasks)
reconcile-swept_example = reconcile-swept clocked 1_900_000_000_000 two_tasks two_tasks-Once "old"

abbrev launched : Reconciler
launched = record clocked { running = true }
