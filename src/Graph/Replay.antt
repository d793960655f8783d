-- ===== src/Graph/Replay.antt =====
-- `ReplayGraphLog` and `recoverRunningOrphans` of graph_state.go.
pub mod Orphans
use df_code_audit.Prelude.{
  ℕ, suc, String, Bool, true, false, Option, none, some, List, [], ◌∷◌, ◌++◌, if◌then◌else◌,
}
use df_code_audit.Prelude.Eq.{String_eq}
use df_code_audit.Prelude.Dict.{lookup}
use df_code_audit.Graph.Event.{Envelope}
use df_code_audit.Graph.State.{
  NodeStatus, declared, running, status_beq, GraphNode, GraphState, new_graph_state,
}
use df_code_audit.Graph.Apply.{GraphError, put_node, apply}

-- What the scanner and the JSON parser make of a line: nothing but space, no envelope, an envelope,
-- or a line that is longer than the buffer, at which the scan ends.
pub data Line : Type 0 where
  blank torn too_long : Line
  event : Envelope → Line

pub data Replayed : Type 0 where
  rebuilt : GraphState → Replayed
  refused : GraphError → Replayed
  scan_failed : Replayed

abbrev pub is_running : Option GraphNode → Bool
is_running none = false
is_running (some n) = status_beq n.status running

-- The body of the loop, on a node that is there: every id of the order is a key
-- (Graph.Apply.WellFormed).
unfoldable pub recover_node : ℕ → String → Option GraphNode → GraphState → GraphState
recover_node now id none st = st
recover_node now id (some n) st =
    if is_running (some n)
    then record (put_node id
        (record n { status = declared; attempts = suc n.attempts; updated_at = now }) st) {
          recovered_nodes = st.recovered_nodes ++ id ∷ [];
        }
    else st

-- The loop over the ids of the order.
unfoldable pub recover_all : ℕ → List String → GraphState → GraphState
recover_all now [] st = st
recover_all now (id ∷ ids) st = recover_all now ids (recover_node now id (lookup id st.nodes) st)

unfoldable pub recover_running_orphans : ℕ → GraphState → GraphState
recover_running_orphans now st = recover_all now st.order st

-- `clock n` is the time when the line is applied before which `n` have been.
module _ (parse_time parse_time_nano : String → Option ℕ) (clock : ℕ → ℕ) where
  abbrev pub go_on : GraphState × Option GraphError → (GraphState → Replayed) → Replayed
  go_on (st, none) f = f st
  go_on (st, some e) f = refused e

  -- The loop over the lines, up to the recovery.
  unfoldable pub replay_lines : List Line → GraphState → Replayed
  replay_lines [] st = rebuilt st
  replay_lines (blank ∷ lines) st = replay_lines lines st
  replay_lines (torn ∷ lines) st =
      replay_lines lines (record st { dropped_lines = suc st.dropped_lines })
  replay_lines (too_long ∷ lines) st = scan_failed
  replay_lines (event env ∷ lines) st =
      go_on (apply parse_time parse_time_nano (clock st.lines) env st) (replay_lines lines)

  abbrev pub recovering : Replayed → Replayed
  recovering (rebuilt st) = rebuilt (recover_running_orphans (clock st.lines) st)
  recovering (refused e) = refused e
  recovering scan_failed = scan_failed

  unfoldable pub replay_graph_log : List Line → Replayed
  replay_graph_log lines = recovering (replay_lines lines new_graph_state)
