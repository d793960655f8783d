-- ===== src/Task/Reconciler/Sweep.antt =====
-- Which tasks a pass of the reconciler times out.
use df_code_audit.Prelude.{
  ℕ, ◌+◌, ◌-◌, ◌<◌, ◌≡◌, refl, ◌↔◌, true, Option, none, some, List, [], ◌∷◌, arith, filter, length,
  length-append, ltb, inl, inr, Bool-cases,
}
use df_code_audit.Prelude.Eq.{String_eq}
use df_code_audit.Task.Reconciler.{
  ScanTask, TaskStore, Reconciler, Pass, probe, later_of, last_activity, is_stale, mark_timeout,
  scan, reconcile,
}

later_of_bound :
    (last limit now : ℕ) (o : Option ℕ)
    → last + limit < now
    → ((ts : ℕ) → o ≡ some ts → ts + limit < now)
    → ltb limit (now - later_of last o) ≡ true
later_of_bound last limit now none h k = ground arith
later_of_bound last limit now (some ts) h k = ground (arith, k ts refl)

-- A task is stale exactly if neither its `updated_at` nor a write of its AI interaction log lies
-- within the timeout before `now`.
pub is_stale_iff :
    (r : Reconciler) (now : ℕ) (task : ScanTask)
    → (is_stale r now task ≡ true) ↔ (
        (task.updated_at + r.limit < now)
        × ((ts : ℕ) → probe r.activity_lookup task.task_id ≡ some ts → ts + r.limit < now))
unfolding is_stale last_activity
is_stale_iff r now task = (
  (λ h. (ground arith, λ ts e. ground (arith, e))),
  λ h. later_of_bound task.updated_at r.limit now (probe r.activity_lookup task.task_id) h.0 h.1,
)

module _ {S : Type 0} (store : TaskStore S) (r : Reconciler) where
  -- What the given tasks alone do to a pass, in their order.
  abbrev pub sweep : List ScanTask → Pass S → Pass S
  sweep [] p = p
  sweep (task ∷ tasks) p = sweep tasks (mark_timeout store r task p)

  scan-sweep :
      (now : ℕ) (tasks : List ScanTask) (p : Pass S)
      → scan store r now tasks p ≡ sweep (filter (is_stale r now) tasks) p
  unfolding scan
  scan-sweep now [] p = refl
  scan-sweep now (task ∷ tasks) p = elim (Bool-cases (is_stale r now task)) [
    | inl e ↦ rw e (scan-sweep now tasks (mark_timeout store r task p))
    | inr e ↦ rw e (scan-sweep now tasks p)
  ]

  mark-count :
      (task : ScanTask) (p : Pass S)
      → r.has_on_timeout ≡ true
      → p.timed_out ≡ length p.compensated
      → (mark_timeout store r task p).timed_out ≡ length (mark_timeout store r task p).compensated
  unfolding mark_timeout
  mark-count task p on h = ground (arith, length-append {0} p.compensated (task.task_id ∷ []))

  sweep-count :
      (tasks : List ScanTask) (p : Pass S)
      → r.has_on_timeout ≡ true
      → p.timed_out ≡ length p.compensated
      → (sweep tasks p).timed_out ≡ length (sweep tasks p).compensated
  sweep-count [] p on h = h
  sweep-count (task ∷ tasks) p on h =
      sweep-count tasks (mark_timeout store r task p) on (mark-count task p on h)

  -- With a callback set, the count that a pass returns is the number of calls of the callback.
  pub reconcile-count :
      (now : ℕ) (s : S)
      → r.has_on_timeout ≡ true
      → (reconcile store r now s).timed_out ≡ length (reconcile store r now s).compensated
  unfolding reconcile
  reconcile-count now s on = rw scan-sweep (
      sweep-count (filter (is_stale r now) (store.get_running_tasks s))
        (record { store = s; timed_out = 0; compensated = [] }) on refl)
