-- ===== src/Graph/Reopen.antt =====
-- engine/services/runtime-service/internal/sandbox/graph_inject.go: the operations of people on the
-- graph of a task: the registry of running graphs, and the reopening of a node in the log of a graph
-- that has ended. The operations of a running graph are parameters; the text of the time, and the
-- JSON of the built line, are left out.
use df_code_audit.Prelude.{
  ℕ, suc, String, Bool, true, false, Option, none, some, List, [], ◌∷◌, if◌then◌else◌,
}
use df_code_audit.Prelude.Eq.{String_eq}
use df_code_audit.Prelude.Dict.{Dict, lookup, insert, delete}
use df_code_audit.Graph.Event.{Envelope, node_reopened, text}
use df_code_audit.Graph.State.{GraphNode, terminal}
use df_code_audit.Graph.Replay.{Line, Replayed, rebuilt, refused, scan_failed, replay_graph_log}

-- What a running graph lets people do; an operation may be missing, and gives an error or a value.
pub record GraphOps : Type 0 where
  pub inject : Option (String → String → Option String)
  pub claim : Option (String → ℕ → String × Option String)
  pub release : Option (String → Option String)

abbrev pub Registry : Type 0
Registry = Dict String GraphOps

unfoldable pub register_graph_ops : String → GraphOps → Registry → Registry
register_graph_ops task_id ops r = insert task_id ops r

-- What the function that `registerGraphOps` returns does.
unfoldable pub release_graph_ops : String → Registry → Registry
release_graph_ops task_id r = delete task_id r

unfoldable pub no_active_graph : String
no_active_graph = "no active graph"

unfoldable pub inject_with :
    Option (String → String → Option String) → String → String → Option String
inject_with none node_id message = some no_active_graph
inject_with (some f) node_id message = f node_id message

-- `none` is success.
unfoldable pub inject_found : Option GraphOps → String → String → Option String
unfolding inject_with
inject_found none node_id message = some no_active_graph
inject_found (some ops) node_id message = inject_with ops.inject node_id message

unfoldable pub inject_graph_node : String → String → String → Registry → Option String
unfolding inject_found
inject_graph_node task_id node_id message r = inject_found (lookup task_id r) node_id message

unfoldable pub claim_with :
    Option (String → ℕ → String × Option String) → String → ℕ → String × Option String
claim_with none node_id ttl = ("", some no_active_graph)
claim_with (some f) node_id ttl = f node_id ttl

unfoldable pub claim_found : Option GraphOps → String → ℕ → String × Option String
unfolding claim_with
claim_found none node_id ttl = ("", some no_active_graph)
claim_found (some ops) node_id ttl = claim_with ops.claim node_id ttl

unfoldable pub claim_graph_node : String → String → ℕ → Registry → String × Option String
unfolding claim_found
claim_graph_node task_id node_id ttl r = claim_found (lookup task_id r) node_id ttl

unfoldable pub release_with : Option (String → Option String) → String → Option String
release_with none node_id = some no_active_graph
release_with (some f) node_id = f node_id

unfoldable pub release_found : Option GraphOps → String → Option String
unfolding release_with
release_found none node_id = some no_active_graph
release_found (some ops) node_id = release_with ops.release node_id

unfoldable pub release_graph_node : String → String → Registry → Option String
unfolding release_found
release_graph_node task_id node_id r = release_found (lookup task_id r) node_id

unfoldable pub is_registered : Option GraphOps → Bool
is_registered none = false
is_registered (some ops) = true

unfoldable pub graph_inject_active : String → Registry → Bool
unfolding is_registered
graph_inject_active task_id r = is_registered (lookup task_id r)

pub data Reopened : Type 0 where
  built : Envelope → Reopened
  not_replayed missing not_terminal : Reopened

unfoldable pub reopened_envelope : ℕ → String → String → Envelope
reopened_envelope seq node_id reason = record {
  kind = node_reopened;
  seq = seq;
  event_data = ("nodeId", text node_id) ∷ ("reason", text reason) ∷ ("by", text "human") ∷ [];
}

unfoldable pub reopen_found : ℕ → String → String → Option GraphNode → Reopened
unfolding reopened_envelope
reopen_found last_seq node_id reason none = missing
reopen_found last_seq node_id reason (some n) =
    if terminal n.status
    then built (reopened_envelope (suc last_seq) node_id reason)
    else not_terminal

unfoldable pub reopen_replayed : String → String → Replayed → Reopened
unfolding reopen_found
reopen_replayed node_id reason (rebuilt st) =
    reopen_found st.last_seq node_id reason (lookup node_id st.nodes)
reopen_replayed node_id reason (refused e) = not_replayed
reopen_replayed node_id reason scan_failed = not_replayed

module _ (parse_time parse_time_nano : String → Option ℕ) (clock : ℕ → ℕ) where
  unfoldable pub build_graph_reopened : List Line → String → String → Reopened
  unfolding reopen_replayed
  build_graph_reopened lines node_id reason =
      reopen_replayed node_id reason (replay_graph_log parse_time parse_time_nano clock lines)
