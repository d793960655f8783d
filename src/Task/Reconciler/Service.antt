-- ===== src/Task/Reconciler/Service.antt =====
-- engine/services/task-service/internal/service/task_service.go: the store that the task service is to the
-- reconciler, and a pass over it. Kept of a task are its status and the time of its last update;
-- the database, the log and the count of usage are left out.
use df_code_audit.Prelude.{
  ℕ, String, Bool, true, false, ◌&&◌, ◌≡◌, refl, sym, ap, subst, ◌∙◌, Option, none, some, List, [],
  ◌∷◌, if◌then◌else◌, inl, inr, Bool-cases,
}
use df_code_audit.Prelude.Eq.{beq, String_eq}
use df_code_audit.Prelude.Dict.{Dict, lookup, insert, lookup-insert}
use text.Mathlib.TextEquality.{eq_iff}
use df_code_audit.Task.Status.{TaskStatus, running, timeout, status_beq, status_beq_iff}
use df_code_audit.Task.StateMachine.{
  TransitionError, new, validate_transition, can_transition, register_transitions, add_transition,
  add_cancellations,
}
use df_code_audit.Task.Reconciler.{
  ScanTask, TaskStore, Reconciler, Pass, is_stale, mark_timeout, scan, reconcile,
}

pub record Task : Type 0 where
  pub status : TaskStatus
  pub updated_at : ℕ

unfoldable pub get_running_tasks : Dict String Task → List ScanTask
get_running_tasks [] = []
get_running_tasks ((id, t) ∷ tasks) =
    let rest = get_running_tasks tasks in
    if status_beq t.status running
    then record { task_id = id; updated_at = t.updated_at } ∷ rest
    else rest

-- `transitionLocked`, where the state machine allows it.
unfoldable pub transition :
    ℕ
    → String
    → TaskStatus
    → Task
    → Dict String Task
    → Option TransitionError
    → Dict String Task × Bool
transition now id to t tasks (some e) = (tasks, false)
transition now id to t tasks none =
    (insert id (record t { status = to; updated_at = now }) tasks, true)

unfoldable pub update_found :
    ℕ → String → TaskStatus → Option Task → Dict String Task → Dict String Task × Bool
unfolding transition
update_found now id to none tasks = (tasks, false)
update_found now id to (some t) tasks =
    transition now id to t tasks (validate_transition new t.status to)

unfoldable pub update_task_status :
    ℕ → String → TaskStatus → Dict String Task → Dict String Task × Bool
unfolding update_found
update_task_status now id to tasks = update_found now id to (lookup id tasks) tasks

-- The clock stands still during a pass.
abbrev pub task_service : ℕ → TaskStore (Dict String Task)
task_service now = record {
  get_running_tasks = get_running_tasks;
  update_task_status = update_task_status now;
}

running_times_out : validate_transition new running timeout ≡ none
unfolding validate_transition can_transition new register_transitions add_transition
    add_cancellations lookup insert
running_times_out = refl

module _ (r : Reconciler) (now : ℕ) where
  -- What a pass makes of a task.
  abbrev pub swept : String → Task → Task
  swept id t =
      if status_beq t.status running
        && is_stale r now (record { task_id = id; updated_at = t.updated_at })
      then record { status = timeout; updated_at = now }
      else t

  abbrev pub swept_entry : String → Option Task → Option Task
  swept_entry id none = none
  swept_entry id (some t) = some (swept id t)

  -- No id has two entries.
  abbrev pub Once : Dict String Task → Type 0
  Once [] = Unit
  Once ((id, t) ∷ tasks) = (lookup id tasks ≡ none) × Once tasks

  -- The tasks still to come leave the others to the store.
  abbrev over : String → Option Task → Option Task → Option Task
  over id none held = held
  over id (some t) held = some (swept id t)

  none-some : {t : Task} → none ≡ some t → ⊥
  none-some e = cc

  marked :
      (id : String) (t : Task) (p : Pass (Dict String Task))
      → status_beq t.status running ≡ true
      → lookup id p.store ≡ some t
      → (mark_timeout
          (task_service now)
          r
          (record { task_id = id; updated_at = t.updated_at })
          p).store
        ≡ insert id (record { status = timeout; updated_at = now }) p.store
  unfolding mark_timeout update_task_status update_found transition
  marked id t p is_running h =
      rw (h, (status_beq_iff t.status running).0 is_running, running_times_out) refl

  apart :
      (id j : String) (t : Task) (tasks : Dict String Task)
      → lookup id tasks ≡ none
      → lookup j tasks ≡ some t
      → beq id j ≡ false
  apart id j t tasks h e = elim (Bool-cases (beq id j)) [
    | inl same ↦ absurd (none-some (sym h ∙ ap (λ i. lookup i tasks) ((eq_iff id j).0 same) ∙ e))
    | inr f ↦ f
  ]

  -- One task of the pass, before the others.
  abbrev first : String → Task → Pass (Dict String Task) → Pass (Dict String Task)
  first id t p =
      let task : ScanTask = record { task_id = id; updated_at = t.updated_at } in
      if status_beq t.status running && is_stale r now task
      then mark_timeout (task_service now) r task p
      else p

  one_scanned :
      (id : String) (t : Task) (tasks : Dict String Task) (p : Pass (Dict String Task))
      → scan (task_service now) r now (get_running_tasks ((id, t) ∷ tasks)) p
        ≡ scan (task_service now) r now (get_running_tasks tasks) (first id t p)
  unfolding get_running_tasks scan
  one_scanned id t tasks p = elim (Bool-cases (status_beq t.status running)) [
    | inl e ↦ rw (e, get_running_tasks, scan) refl
    | inr e ↦ rw (e, get_running_tasks) refl
  ]

  -- It writes its own entry alone.
  written_alone :
      (id j : String) (t : Task) (p : Pass (Dict String Task))
      → lookup id p.store ≡ some t
      → lookup j (first id t p).store ≡ (if beq id j then some (swept id t) else lookup j p.store)
  written_alone id j t p h = elim (Bool-cases (status_beq t.status running)) [
    | inl e ↦
        elim (Bool-cases (is_stale r now (record { task_id = id; updated_at = t.updated_at }))) [
          | inl s ↦ rw (e, s) (ap (lookup j) (marked id t p e h) ∙ lookup-insert id j _ p.store)
          | inr s ↦ rw (e, s) (own_entry id j t p h)
        ]
    | inr e ↦ rw e (own_entry id j t p h)
  ]
    where
      own_entry :
          (id j : String) (t : Task) (p : Pass (Dict String Task))
          → lookup id p.store ≡ some t
          → lookup j p.store ≡ (if beq id j then some t else lookup j p.store)
      own_entry id j t p h = elim (Bool-cases (beq id j)) [
        | inl same ↦ rw same (subst (λ i. lookup i p.store ≡ some t) ((eq_iff id j).0 same) h)
        | inr f ↦ rw f refl
      ]

  scan_sweeps :
      (tasks : Dict String Task) (p : Pass (Dict String Task))
      → Once tasks
      → ((j : String) (t : Task) → lookup j tasks ≡ some t → lookup j p.store ≡ some t)
      → (j : String)
      → lookup j (scan (task_service now) r now (get_running_tasks tasks) p).store
        ≡ over j (lookup j tasks) (lookup j p.store)
  unfolding get_running_tasks scan lookup
  scan_sweeps [] p o h j = refl
  scan_sweeps ((id, t) ∷ tasks) p o h j =
      let own = h id t (own_first id t tasks) in
      let rest =
        scan_sweeps tasks (first id t p) o.1
          (λ k u e.
            written_alone id k t p own
            ∙ rw (apart id k u tasks o.0 e)
                (h k u (later id k t u tasks (apart id k u tasks o.0 e) e)))
          j in
      ap (λ (q : Pass (Dict String Task)). lookup j q.store) (one_scanned id t tasks p)
      ∙ rest
      ∙ ap (over j (lookup j tasks)) (written_alone id j t p own)
      ∙ together id j t tasks (lookup j p.store) o.0
    where
      own_first :
          (id : String) (t : Task) (tasks : Dict String Task) → lookup id ((id, t) ∷ tasks) ≡ some t
      own_first id t tasks = rw ((eq_iff id id).1 refl) refl

      later :
          (id k : String) (t u : Task) (tasks : Dict String Task)
          → beq id k ≡ false
          → lookup k tasks ≡ some u
          → lookup k ((id, t) ∷ tasks) ≡ some u
      later id k t u tasks f e = rw f e

      together :
          (id j : String) (t : Task) (tasks : Dict String Task) (held : Option Task)
          → lookup id tasks ≡ none
          → over j (lookup j tasks) (if beq id j then some (swept id t) else held)
            ≡ over j (lookup j ((id, t) ∷ tasks)) held
      together id j t tasks held n = elim (Bool-cases (beq id j)) [
        | inl same ↦
            let e = (eq_iff id j).0 same in
            rw (same, subst (λ i. lookup i tasks ≡ none) e n) (ap (λ i. some (swept i t)) e)
        | inr f ↦ rw f refl
      ]

  -- A pass of the reconciler over the task service, with a clock that stands still during the pass, where
  -- each id has one task: exactly the running tasks that are stale time out, at the time of the pass, and
  -- every other task stays as it is.
  pub reconcile-swept :
      (tasks : Dict String Task)
      → Once tasks
      → (id : String)
      → lookup id (reconcile (task_service now) r now tasks).store
        ≡ swept_entry id (lookup id tasks)
  unfolding reconcile
  reconcile-swept tasks o id =
      scan_sweeps tasks (record { store = tasks; timed_out = 0; compensated = [] }) o (λ j t e. e)
        id
      ∙ as_swept (lookup id tasks)
    where
      as_swept : (held : Option Task) → over id held held ≡ swept_entry id held
      as_swept none = refl
      as_swept (some t) = refl
