-- ===== src/Task/Reconciler/Lifecycle.antt =====
-- Starting and stopping the reconciler's loop.
use df_code_audit.Prelude.{
  Bool, true, false, ◌≡◌, refl, Option, none, some, arith, Bool-cases, List, [], ◌∷◌, inl, inr,
}
use df_code_audit.Task.Reconciler.{Reconciler, start, stop}

pub data Call : Type 0 where
  starts stops : Call

-- A caller's calls in order; `none` once one of them panics.
unfoldable pub run_calls : List Call → Reconciler → Option Reconciler
run_calls [] r = some r
run_calls (starts ∷ calls) r = run_calls calls (start r)
run_calls (stops ∷ calls) r = elim (stop r) [ none ↦ none | some r' ↦ run_calls calls r' ]

-- The channel `stopCh` is open.
abbrev pub IsFresh : Reconciler → Type 0
IsFresh r = (r.stop_closed ≡ false)

-- Calls of `Stop` alone, in any number.
abbrev pub only_stops : List Call → Bool
only_stops [] = true
only_stops (starts ∷ calls) = false
only_stops (stops ∷ calls) = only_stops calls

-- Starts in any number, and then stops in any number.
abbrev pub starts_then_stops : List Call → Bool
starts_then_stops [] = true
starts_then_stops (starts ∷ calls) = starts_then_stops calls
starts_then_stops (stops ∷ calls) = only_stops calls

stops_safe :
    (calls : List Call) (r : Reconciler)
    → r.running ≡ false
    → only_stops calls ≡ true
    → run_calls calls r ≡ some r
unfolding run_calls stop
stops_safe [] r h o = refl
stops_safe (starts ∷ calls) r h o = cc
stops_safe (stops ∷ calls) r h o = ground (arith, stops_safe calls r h o)

start-IsFresh : (r : Reconciler) → IsFresh r → IsFresh (start r)
unfolding start
start-IsFresh r h = ground arith

-- A stop on a fresh reconciler succeeds and leaves the loop not running.
stop_fresh :
    (r : Reconciler) → IsFresh r → (r' : Reconciler) × (stop r ≡ some r') × (r'.running ≡ false)
unfolding stop
stop_fresh r h = elim (Bool-cases r.running) [
  | inl e ↦ (record r { stop_closed = true; running = false }, ground arith, refl)
  | inr e ↦ (r, ground arith, e)
]

-- A reconciler whose channel is open survives any calls of `Start` followed by any of `Stop`.
pub run_calls-once :
    (calls : List Call) (r : Reconciler)
    → IsFresh r
    → starts_then_stops calls ≡ true
    → (r' : Reconciler) × (run_calls calls r ≡ some r')
unfolding run_calls
run_calls-once [] r h o = (r, refl)
run_calls-once (starts ∷ calls) r h o = run_calls-once calls (start r) (start-IsFresh r h) o
run_calls-once (stops ∷ calls) r h o =
    let (r', e, idle) = stop_fresh r h in (r', rw (e, run_calls) (stops_safe calls r' idle o))

-- The channel is never made anew. A running reconciler whose channel is open can be stopped and
-- started again, and then panics at the next `Stop`.
pub restart_panics :
    (r : Reconciler)
    → r.running ≡ true
    → IsFresh r
    → (run_calls (stops ∷ starts ∷ []) r ≡ some (record r { stop_closed = true; running = true }))
      × (run_calls (stops ∷ starts ∷ stops ∷ []) r ≡ none)
unfolding run_calls start stop
restart_panics r h fresh = (ground arith, ground arith)
