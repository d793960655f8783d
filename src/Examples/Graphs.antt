-- ===== src/Examples/Graphs.antt =====
-- A task of two nodes, the second after the first.
use df_code_audit.Prelude.{
  ℕ, ◌+◌, String, true, false, ◌≡◌, refl, ◌↔◌, ◌++◌, Option, none, List, [], ◌∷◌, All,
}
use df_code_audit.Prelude.Eq.{String_eq}
use df_code_audit.Prelude.Dict.{lookup, insert}
use df_code_audit.Graph.Event.{node_declared, node_started, node_result, text, Envelope, text_field}
use df_code_audit.Graph.Numbering.{node_seq_of, digits_value}
use df_code_audit.Graph.State.{
  GraphNode, GraphState, new_graph_state, declared, running, completed, new_node, add_node,
  is_ready,
}
use df_code_audit.Graph.State.Ready.{Done, is_ready_iff}
use df_code_audit.Graph.Apply.{
  apply, fold_event, apply_declared, declare_at, apply_started, put_node, parse_graph_time,
}
use df_code_audit.Graph.Apply.Change.{Change, apply-Change}
use df_code_audit.Graph.Apply.Growth.{Survive, apply-Survive}
use df_code_audit.Graph.Apply.Table.{WellFormed, new_graph_state-WellFormed}
use df_code_audit.Graph.Apply.WellFormed.{apply-WellFormed}
use df_code_audit.Graph.Replay.{
  Line, event, torn, blank, rebuilt, replay_lines, replay_graph_log, is_running,
}
use df_code_audit.Graph.Replay.Orphans.{revived, running_among, replay_graph_log-orphans}

abbrev no_time : String → Option ℕ
no_time s = none

abbrev clock : ℕ → ℕ
clock n = 1000 + n

abbrev declaring : Envelope
declaring = record {
  kind = node_declared;
  seq = 1;
  event_data =
      ("nodeId", text "n001") ∷ ("type", text "audit") ∷ ("intent", text "look at the parser") ∷ [];
}

abbrev starting : Envelope
starting = record { kind = node_started; seq = 2; event_data = ("nodeId", text "n001") ∷ [] }

abbrev started_node : GraphNode
started_node = record {
  id = "n001";
  node_type = "audit";
  intent = "look at the parser";
  status = running;
  declared_by = "";
  from = [];
  result_ref = "";
  attempts = 0;
  created_at = 0;
  updated_at = 1001;
  completed_at = 0;
  completed_ord = 0;
  holder = "";
  lease_until = 0;
}

abbrev before : GraphState
before = record {
  nodes = ("n001", started_node) ∷ [];
  order = "n001" ∷ [];
  node_seq = 1;
  last_seq = 2;
  planner_runs = 0;
  converged = false;
  lines = 2;
  paused_mark = 0;
  has_paused_mark = false;
  dropped_lines = 1;
  recovered_nodes = [];
}

abbrev log : List Line
log = event declaring ∷ blank ∷ event starting ∷ torn ∷ []

log_folded : replay_lines no_time no_time clock log new_graph_state ≡ rebuilt before
unfolding replay_lines apply fold_event apply_declared declare_at apply_started put_node
    parse_graph_time new_graph_state new_node add_node lookup insert text_field node_seq_of
    digits_value
log_folded = refl

apply-WellFormed_example : WellFormed (apply no_time no_time 1000 declaring new_graph_state).0
apply-WellFormed_example =
    apply-WellFormed no_time no_time 1000 declaring new_graph_state new_graph_state-WellFormed

replay_graph_log-orphans_example :
    (st : GraphState) × (replay_graph_log no_time no_time clock log ≡ rebuilt st)
    × ((j : String) → lookup j st.nodes ≡ revived 1002 (lookup j before.nodes))
    × ((j : String) → is_running (lookup j st.nodes) ≡ false)
    × (st.recovered_nodes ≡ [] ++ running_among before.nodes ("n001" ∷ []))
replay_graph_log-orphans_example =
    replay_graph_log-orphans no_time no_time clock log before log_folded

-- The first node is done, and two more wait.
abbrev done_node : GraphNode
done_node = record started_node { status = completed }

abbrev waiting : String → GraphNode
waiting id = record started_node { id = id; status = declared; from = "n001" ∷ [] }

abbrev later : GraphState
later = record before {
  nodes = ("n001", done_node) ∷ ("n002", waiting "n002") ∷ ("n003", waiting "n003") ∷ [];
  order = "n001" ∷ "n002" ∷ "n003" ∷ [];
}

is_ready_iff_example : (is_ready later.nodes (waiting "n002") ≡ true) ↔ (
    (declared ≡ declared) × ((waiting "n002").holder ≡ "") × All (Done later.nodes) ("n001" ∷ []))
is_ready_iff_example = is_ready_iff later.nodes (waiting "n002")

apply-Change_example : Change before (apply no_time no_time 1000 starting before).0
apply-Change_example = apply-Change no_time no_time 1000 starting before

apply-Survive_example : Survive before.nodes (apply no_time no_time 1000 starting before).0.nodes
apply-Survive_example = apply-Survive no_time no_time 1000 starting before

abbrev ending : Envelope
ending = record {
  kind = node_result;
  seq = 3;
  event_data = ("nodeId", text "n001") ∷ ("outcome", text "completed") ∷ [];
}

abbrev ended_log : List Line
ended_log = log ++ event ending ∷ []
