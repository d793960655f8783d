-- ===== src/Pause.antt =====
-- engine/services/runtime-service/internal/sandbox/pause.go: the gates at which the rounds of a paused
-- task wait. Each operation on a gate runs under its mutex, so a run is a sequence of calls.
pub mod Waiting
pub mod Registry
use df_code_audit.Prelude.{
  ℕ, suc, ◌-◌, String, Bool, true, false, ◌&&◌, not, Option, none, some, List, [], ◌∷◌, length,
  take, if◌then◌else◌, ◌==◌,
}
use df_code_audit.Prelude.Eq.{contains, ℕ_eq, String_eq}
use df_code_audit.Prelude.Dict.{Dict, lookup, insert, delete}
use df_code_audit.Prelude.Text.{Bytes, codes, has_suffix}

-- `gateKey`: a round of repairs shares the gate of its task.
unfoldable pub gate_key : Bytes → Bytes
gate_key task_id =
    let root = take (length task_id - length (codes "-fix")) task_id in
    if has_suffix task_id (codes "-fix") && not (length root == 0) then root else task_id

-- The channels that a gate makes are numbered; `closed` has those that it has closed.
pub record PauseGate : Type 0 where
  pub paused : Bool
  pub wake : ℕ
  pub made : ℕ
  pub closed : List ℕ

unfoldable pub new_pause_gate : PauseGate
new_pause_gate = record { paused = false; wake = 0; made = 1; closed = [] }

unfoldable pub pause : PauseGate → PauseGate
pause g = if not g.paused then record g { paused = true; wake = g.made; made = suc g.made } else g

-- `none` is the panic of closing a closed channel.
unfoldable pub resume : PauseGate → Option PauseGate
resume g =
    if g.paused
    then if contains g.wake g.closed
      then none
      else some (record g { paused = false; closed = g.wake ∷ g.closed })
    else some g

-- `WaitFrozen` by its local channel: a caller whose select is on channel `ch` returns where that has been
-- closed and the gate is not paused; where it is paused again, the loop takes the gate's channel anew.
unfoldable pub goes_on : ℕ → PauseGate → Bool
goes_on ch g = contains ch g.closed && not g.paused

-- The registry of the package, and the gates that its pointers point to.
pub record Pauses : Type 0 where
  pub gates : Dict String ℕ
  pub heap : ℕ → PauseGate
  pub next : ℕ

abbrev pub write : (ℕ → PauseGate) → ℕ → PauseGate → ℕ → PauseGate
write heap r g q = if r == q then g else heap q

unfoldable pub add_gate : String → Pauses → Pauses
add_gate task_id w = record {
  gates = insert task_id w.next w.gates;
  heap = write w.heap w.next new_pause_gate;
  next = suc w.next;
}

unfoldable pub gate_or_new : String → Option ℕ → Pauses → Pauses × ℕ
gate_or_new task_id none w = (add_gate task_id w, w.next)
gate_or_new task_id (some r) w = (w, r)

unfoldable pub gate_for : String → Pauses → Pauses × ℕ
gate_for task_id w = gate_or_new task_id (lookup task_id w.gates) w

unfoldable pub pause_session : String → Pauses → Pauses
pause_session task_id w =
    let (w', r) = gate_or_new task_id (lookup task_id w.gates) w in
    record w' { heap = write w'.heap r (pause (w'.heap r)) }

abbrev pub resumed_at : ℕ → Option PauseGate → Pauses → Option Pauses
resumed_at r none w = none
resumed_at r (some g) w = some (record w { heap = write w.heap r g })

unfoldable pub resume_found : Option ℕ → Pauses → Option Pauses
resume_found none w = some w
resume_found (some r) w = resumed_at r (resume (w.heap r)) w

unfoldable pub resume_session : String → Pauses → Option Pauses
resume_session task_id w = resume_found (lookup task_id w.gates) w

unfoldable pub clear_session : String → Pauses → Pauses
clear_session task_id w = record w { gates = delete task_id w.gates }
