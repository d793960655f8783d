-- ===== src/Task/Reconciler.antt =====
-- engine/services/task-service/internal/reconciler/reconciler.go. Times are nanoseconds as natural
-- numbers; `now.Sub(t) > timeout` with a `t` in the future is a negative duration, which the
-- truncated difference reads as 0, and neither is above a timeout.
pub mod Sweep
pub mod Service
pub mod Lifecycle
use df_code_audit.Prelude.{
  ℕ, suc, ◌-◌, String, Bool, true, false, Option, none, some, List, [], ◌∷◌, ◌++◌, ltb,
  if◌then◌else◌,
}
use df_code_audit.Task.Status.{TaskStatus, timeout}

pub record ScanTask : Type 0 where
  pub task_id : String
  pub updated_at : ℕ

-- The interface `TaskStore` over a store's state: an update tells whether it succeeded.
pub record TaskStore (S : Type 0) : Type 0 where
  pub get_running_tasks : S → List ScanTask
  pub update_task_status : String → TaskStatus → S → S × Bool

-- `stop_closed` tells whether the channel `stopCh` has been closed.
pub record Reconciler : Type 0 where
  pub limit : ℕ
  pub activity_lookup : Option (String → Option ℕ)
  pub has_on_timeout : Bool
  pub running : Bool
  pub stop_closed : Bool

-- 30 minutes.
abbrev pub default_task_timeout : ℕ
default_task_timeout = 1_800_000_000_000

unfoldable pub new : Reconciler
new = record {
  limit = default_task_timeout;
  activity_lookup = none;
  has_on_timeout = false;
  running = false;
  stop_closed = false;
}

-- `none` where the AI interaction log tells nothing.
abbrev pub probe : Option (String → Option ℕ) → String → Option ℕ
probe none id = none
probe (some look) id = look id

abbrev pub later_of : ℕ → Option ℕ → ℕ
later_of last none = last
later_of last (some ts) = if ltb last ts then ts else last

unfoldable pub last_activity : Reconciler → ScanTask → ℕ
last_activity r task = later_of task.updated_at (probe r.activity_lookup task.task_id)

unfoldable pub is_stale : Reconciler → ℕ → ScanTask → Bool
unfolding last_activity
is_stale r now task = ltb r.limit (now - last_activity r task)

-- A pass in progress: the store, the count `timedOut`, and the ids handed to `onTimeout`.
pub record Pass (S : Type 0) : Type 0 where
  pub store : S
  pub timed_out : ℕ
  pub compensated : List String

module _ {S : Type 0} (store : TaskStore S) (r : Reconciler) where
  -- What one stale task does to the pass; a failed update goes on with the next task.
  unfoldable pub mark_timeout : ScanTask → Pass S → Pass S
  mark_timeout task p =
      let (s', updated) = store.update_task_status task.task_id timeout p.store in
      if updated
      then record {
        store = s';
        timed_out = suc p.timed_out;
        compensated =
            if r.has_on_timeout then p.compensated ++ task.task_id ∷ [] else p.compensated;
      }
      else record p { store = s' }

  unfoldable pub scan : ℕ → List ScanTask → Pass S → Pass S
  scan now [] p = p
  scan now (task ∷ tasks) p =
      scan now tasks (if is_stale r now task then mark_timeout task p else p)

  unfoldable pub reconcile : ℕ → S → Pass S
  reconcile now s =
      scan now (store.get_running_tasks s) (record { store = s; timed_out = 0; compensated = [] })

-- `Start` launches the loop only if none runs.
unfoldable pub start : Reconciler → Reconciler
start r = if r.running then r else record r { running = true }

-- `Stop`; `none` is the panic of closing a closed channel.
unfoldable pub stop : Reconciler → Option Reconciler
stop r =
    if r.running
    then if r.stop_closed then none else some (record r { stop_closed = true; running = false })
    else some r
