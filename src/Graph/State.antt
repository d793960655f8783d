-- ===== src/Graph/State.antt =====
-- graph_state.go: the table of nodes and its readers. Times are natural numbers, 0 is the zero time.
-- The nodes that `order` names are read from the map; each of them is there (Graph.Apply.WellFormed).
pub mod Ready
pub mod Counts
use df_code_audit.Prelude.{
  ℕ, suc, ◌+◌, String, Bool, true, false, not, ◌&&◌, ◌||◌, Option, none, some, List, [], ◌∷◌, ◌++◌,
  map, length, filter, any, all, count_if, if◌then◌else◌, ◌==◌, ltb, leb,
}
use df_code_audit.Prelude.Eq.{beq, String_eq}
use df_code_audit.Prelude.Dict.{Dict, lookup, insert}
use df_code_audit.Prelude.Text.{concat, decimal}

pub data NodeStatus : Type 0 where
  declared running completed failed rejected : NodeStatus

abbrev pub status_number : NodeStatus → ℕ
status_number declared = 0
status_number running = 1
status_number completed = 2
status_number failed = 3
status_number rejected = 4

abbrev pub status_beq : NodeStatus → NodeStatus → Bool
status_beq a b = status_number a == status_number b

unfoldable pub terminal : NodeStatus → Bool
terminal s = status_beq s completed || status_beq s failed || status_beq s rejected

pub record GraphNode : Type 0 where
  pub id : String
  pub node_type : String
  pub intent : String
  pub status : NodeStatus
  pub declared_by : String
  pub from : List String
  pub result_ref : String
  pub attempts : ℕ
  pub created_at : ℕ
  pub updated_at : ℕ
  pub completed_at : ℕ
  pub completed_ord : ℕ
  pub holder : String
  pub lease_until : ℕ

pub record GraphState : Type 0 where
  pub nodes : Dict String GraphNode
  pub order : List String
  pub node_seq : ℕ
  pub last_seq : ℕ
  pub planner_runs : ℕ
  pub converged : Bool
  pub lines : ℕ
  pub paused_mark : ℕ
  pub has_paused_mark : Bool
  pub dropped_lines : ℕ
  pub recovered_nodes : List String

unfoldable pub new_graph_state : GraphState
new_graph_state = record {
  nodes = [];
  order = [];
  node_seq = 0;
  last_seq = 0;
  planner_runs = 0;
  converged = false;
  lines = 0;
  paused_mark = 0;
  has_paused_mark = false;
  dropped_lines = 0;
  recovered_nodes = [];
}

-- fmt.Sprintf("n%03d", n)
unfoldable pub node_name : ℕ → String
node_name n =
    let digits = decimal n in
    concat "n"
      (if ltb n 10 then concat "00" digits else if ltb n 100 then concat "0" digits else digits)

unfoldable pub new_node : String → String → String → String → List String → ℕ → ℕ → GraphNode
new_node id typ intent declared_by from created updated = record {
  id = id;
  node_type = typ;
  intent = intent;
  status = declared;
  declared_by = declared_by;
  from = from;
  result_ref = "";
  attempts = 0;
  created_at = created;
  updated_at = updated;
  completed_at = 0;
  completed_ord = 0;
  holder = "";
  lease_until = 0;
}

-- The node goes under its own id, at the end of the order.
unfoldable pub add_node : GraphNode → GraphState → GraphState
add_node n st = record st { nodes = insert n.id n st.nodes; order = st.order ++ n.id ∷ [] }

-- `declare`, with `nextNodeID`.
unfoldable pub declare :
    ℕ → String → String → String → List String → GraphState → GraphNode × GraphState
declare now typ intent declared_by from st =
    let k = suc st.node_seq in
    let n = new_node (node_name k) typ intent declared_by from now now in
    (n, add_node n (record st { node_seq = k }))

abbrev pub put_found : Option GraphNode → List GraphNode → List GraphNode
put_found none rest = rest
put_found (some n) rest = n ∷ rest

-- The nodes of the given ids, in that order.
unfoldable pub nodes_at : Dict String GraphNode → List String → List GraphNode
nodes_at nodes [] = []
nodes_at nodes (id ∷ ids) = put_found (lookup id nodes) (nodes_at nodes ids)

unfoldable pub in_order : GraphState → List GraphNode
in_order st = nodes_at st.nodes st.order

abbrev pub is_open : GraphNode → Bool
is_open n = status_beq n.status declared

abbrev pub first {ℓ} : {A : Type ℓ} → List A → Option A
first [] = none
first (x ∷ xs) = some x

-- `nextOpen`: the loop returns at the first open node.
unfoldable pub find_open : List GraphNode → Option GraphNode
find_open [] = none
find_open (n ∷ ns) = if is_open n then some n else find_open ns

unfoldable pub next_open : GraphState → Option GraphNode
next_open st = find_open (in_order st)

unfoldable pub open_ids : GraphState → List String
open_ids st = map (λ (n : GraphNode). n.id) (filter is_open (in_order st))

abbrev pub dep_done : Option GraphNode → Bool
dep_done none = false
dep_done (some d) = terminal d.status

-- A declared node that nobody holds and whose dependencies are all terminal.
unfoldable pub is_ready : Dict String GraphNode → GraphNode → Bool
is_ready nodes n =
    not (not (is_open n) || not (beq n.holder ""))
    && all (λ dep. dep_done (lookup dep nodes)) n.from

unfoldable pub lease_expired : ℕ → GraphNode → Bool
lease_expired now n = not (beq n.holder "") && not (n.lease_until == 0) && ltb n.lease_until now

-- The second loop of `claimableReady`, with its break. A limit that is not positive is 0 here.
unfoldable pub collect_ready :
    ℕ → (GraphNode → Bool) → List GraphNode → List GraphNode → List GraphNode
collect_ready limit ready [] acc = acc
collect_ready limit ready (n ∷ ns) acc = elim (ready n) [
  | false ↦ collect_ready limit ready ns acc
  | true ↦ elim (ltb 0 limit && leb limit (length (acc ++ n ∷ []))) [
    | true ↦ acc ++ n ∷ []
    | false ↦ collect_ready limit ready ns (acc ++ n ∷ [])
  ]
]

-- The ready nodes and the nodes whose lease has run out.
unfoldable pub claimable_ready : ℕ → ℕ → GraphState → List GraphNode × List GraphNode
claimable_ready limit now st = (
  collect_ready limit (is_ready st.nodes) (in_order st) [],
  filter (lease_expired now) (in_order st),
)

unfoldable pub claim_node : String → String → ℕ → GraphNode → GraphState → GraphState
claim_node id holder lease n st = record st {
  nodes = insert id (record n { holder = holder; lease_until = lease }) st.nodes;
}

unfoldable pub release_node : String → GraphNode → GraphState → GraphState
release_node id n st = record st {
  nodes = insert id (record n { holder = ""; lease_until = 0 }) st.nodes;
}

unfoldable pub reopened : ℕ → GraphNode → GraphNode
reopened now n =
    if terminal n.status
    then record n { status = declared; result_ref = ""; updated_at = now }
    else n

unfoldable pub reopen_node : ℕ → String → GraphNode → GraphState → GraphState
reopen_node now id n st = record st { nodes = insert id (reopened now n) st.nodes }

abbrev pub values : Dict String GraphNode → List GraphNode
values [] = []
values ((id, n) ∷ m) = n ∷ values m

abbrev pub count_status : NodeStatus → List GraphNode → ℕ
count_status s = count_if (λ n. status_beq n.status s)

-- total, completed, failed, rejected, open
unfoldable pub counts : GraphState → ℕ × ℕ × ℕ × ℕ × ℕ
counts st =
    let ns = values st.nodes in
    (
      length ns,
      count_status completed ns,
      count_status failed ns,
      count_status rejected ns,
      count_status declared ns,
    )

unfoldable pub has_failure_history : GraphState → Bool
has_failure_history st =
    ltb 0 (length st.recovered_nodes)
    || any (λ n. status_beq n.status failed || status_beq n.status rejected || ltb 0 n.attempts)
        (values st.nodes)

unfoldable pub replay_completed_since : ℕ → GraphState → ℕ
replay_completed_since mark st =
    count_if (λ n. status_beq n.status completed && ltb mark n.completed_ord) (values st.nodes)
