-- ===== src/Graph/Apply.antt =====
-- `apply` of graph_state.go: one event of the log folded into the state.
pub mod Change
pub mod Table
pub mod WellFormed
pub mod Growth
use df_code_audit.Prelude.{
  ℕ, suc, String, Bool, true, false, not, ◌&&◌, ◌||◌, ◌≡◌, refl, Option, none, some, List, [], ◌∷◌,
  length, if◌then◌else◌, ◌==◌, ltb,
}
use df_code_audit.Prelude.Eq.{beq, String_eq}
use df_code_audit.Prelude.Dict.{lookup, insert}
use df_code_audit.Graph.Event.{
  EventType, node_claimed, node_released, node_lease_expired, node_reopened, human_message,
  node_declared, node_started, node_result, plan_triggered, paused, node_seeded, converged,
  unknown_type, Data, Envelope, text_of, text_field, texts_of, number_of,
}
use df_code_audit.Graph.State.{
  NodeStatus, declared, running, completed, failed, rejected, status_beq, terminal, GraphNode,
  GraphState, new_node, add_node,
}
use df_code_audit.Graph.Numbering.{node_seq_of}

pub data GraphError : Type 0 where
  bad_seq undeclared claim_not_declared release_not_claimed not_reopenable : GraphError
  no_node_id missing_fields declared_again bad_outcome unknown_event : GraphError

-- The state after an event, and the error of a refused one.
abbrev pub Applied : Type 0
Applied = GraphState × Option GraphError

-- The node under `id` is written in place.
unfoldable pub put_node : String → GraphNode → GraphState → GraphState
put_node id n st = record st { nodes = insert id n st.nodes }

abbrev pub ok : GraphState → Applied
ok st = (st, none)

abbrev pub refuse : GraphError → GraphState → Applied
refuse e st = (st, some e)

-- `nodeOf` and its early return.
abbrev pub with_node : Option GraphNode → (GraphNode → Applied) → GraphState → Applied
with_node none f st = refuse undeclared st
with_node (some n) f st = f n

-- The outcomes that end a node, and the one that sends it back.
pub data NodeOutcome : Type 0 where
  ends : NodeStatus → NodeOutcome
  again : NodeOutcome
  no_outcome : NodeOutcome

unfoldable pub outcome_of : String → NodeOutcome
outcome_of s =
    if beq s "completed"
    then ends completed
    else if beq s "failed"
    then ends failed
    else if beq s "rejected"
    then ends rejected
    else if beq s "indeterminate"
    then again
    else no_outcome

-- `time.Parse` with the layouts RFC3339 and RFC3339Nano, and the clock at the event.
module _ (parse_time parse_time_nano : String → Option ℕ) (now : ℕ) where
  abbrev pub lease_or : ℕ → Option String → ℕ
  lease_or old none = old
  lease_or old (some s) = if beq s "" then old else elim (parse_time s) [ none ↦ old | some t ↦ t ]

  unfoldable pub apply_claimed : String → Data → GraphState → GraphNode → Applied
  apply_claimed id fields st n =
      if not (status_beq n.status declared)
      then refuse claim_not_declared st
      else ok (
          put_node id
            (record n {
              holder = text_field "holder" fields;
              lease_until = lease_or n.lease_until (text_of (lookup "leaseUntil" fields));
            })
            st)

  unfoldable pub apply_released : String → GraphState → GraphNode → Applied
  apply_released id st n =
      if beq n.holder ""
      then refuse release_not_claimed st
      else ok (put_node id (record n { holder = ""; lease_until = 0 }) st)

  unfoldable pub apply_lease_expired : String → GraphState → GraphNode → Applied
  apply_lease_expired id st n = ok (put_node id (record n { holder = ""; lease_until = 0 }) st)

  unfoldable pub apply_reopened : String → GraphState → GraphNode → Applied
  apply_reopened id st n =
      if not (terminal n.status) && not (status_beq n.status declared)
      then refuse not_reopenable st
      else if terminal n.status
      then ok (put_node id (record n { status = declared; result_ref = ""; updated_at = now }) st)
      else ok st

  abbrev pub message_of : Option String → GraphState → Applied
  message_of none st = refuse no_node_id st
  message_of (some id) st = ok st

  -- `parseGraphTime`: the zero time where the text is none.
  unfoldable pub parse_graph_time : Option String → ℕ
  parse_graph_time none = elim (parse_time_nano "") [ none ↦ 0 | some t ↦ t ]
  parse_graph_time (some s) = elim (parse_time_nano s) [ none ↦ 0 | some t ↦ t ]

  -- A declared node is declared again without effect; a new one takes its place at the end.
  unfoldable pub declare_at : String → Data → GraphState → Option GraphNode → Applied
  declare_at id fields st (some known) =
      if status_beq known.status declared then ok st else refuse declared_again st
  declare_at id fields st none =
      let n =
        new_node id (text_field "type" fields) (text_field "intent" fields)
          (text_field "declaredBy" fields) (texts_of (lookup "from" fields))
          (parse_graph_time (text_of (lookup "declaredAt" fields))) now in
      let st' = add_node n st in
      ok
        (if ltb st.node_seq (node_seq_of id) then record st' { node_seq = node_seq_of id } else st')

  unfoldable pub apply_declared : Data → GraphState → Applied
  apply_declared fields st =
      let id = text_field "nodeId" fields in
      if beq id "" || beq (text_field "type" fields) "" || beq (text_field "intent" fields) ""
      then refuse missing_fields st
      else declare_at id fields st (lookup id st.nodes)

  unfoldable pub apply_started : String → GraphState → GraphNode → Applied
  apply_started id st n = ok (put_node id (record n { status = running; updated_at = now }) st)

  abbrev pub ref_or : String → Option String → String
  ref_or old none = old
  ref_or old (some ref) = ref

  -- The node is already written when the outcome turns out not to be one.
  unfoldable pub finish : String → NodeOutcome → GraphState → GraphNode → Applied
  finish id (ends s) st n = ok (
      put_node id
        (record n {
          status = s;
          completed_at = now;
          completed_ord = if status_beq s completed then length st.order else n.completed_ord;
        })
        st)
  finish id again st n =
      ok (put_node id (record n { attempts = suc n.attempts; status = declared }) st)
  finish id no_outcome st n = refuse bad_outcome (put_node id n st)

  unfoldable pub apply_result : String → Data → GraphState → GraphNode → Applied
  apply_result id fields st n = finish id (outcome_of (text_field "outcome" fields)) st (record n {
    result_ref = ref_or n.result_ref (text_of (lookup "resultRef" fields));
    updated_at = now;
  })

  unfoldable pub apply_planned : Data → GraphState → Applied
  apply_planned fields st = ok (
      if not (beq (text_field "trigger" fields) "initial")
      then record st { planner_runs = suc st.planner_runs }
      else st)

  abbrev pub mark_of : Option ℕ → GraphState → Applied
  mark_of none st = ok st
  mark_of (some mark) st = ok (record st { paused_mark = mark; has_paused_mark = true })

  -- The switch over the type.
  unfoldable pub fold_event : EventType → Data → GraphState → Applied
  fold_event kind fields st =
      let id = text_field "nodeId" fields in
      let node = lookup id st.nodes in
      elim kind [
        | node_claimed ↦ with_node node (apply_claimed id fields st) st
        | node_released ↦ with_node node (apply_released id st) st
        | node_lease_expired ↦ with_node node (apply_lease_expired id st) st
        | node_reopened ↦ with_node node (apply_reopened id st) st
        | human_message ↦ message_of (text_of (lookup "nodeId" fields)) st
        | node_declared ↦ apply_declared fields st
        | node_started ↦ with_node node (apply_started id st) st
        | node_result ↦ with_node node (apply_result id fields st) st
        | plan_triggered ↦ apply_planned fields st
        | paused ↦ mark_of (number_of (lookup "plannerMark" fields)) st
        | node_seeded ↦ with_node node (λ n. ok st) st
        | converged ↦ ok (record st { converged = true })
        | unknown_type s ↦ refuse unknown_event st
      ]

  -- Every line counts, also a refused one.
  unfoldable pub apply : Envelope → GraphState → Applied
  apply env st =
      let st' = record st { lines = suc st.lines } in
      if env.seq == 0
      then refuse bad_seq st'
      else fold_event env.kind env.event_data
          (if ltb st.last_seq env.seq then record st' { last_seq = env.seq } else st')
