-- ===== src/Graph/Apply/Change.antt =====
-- What one event does to the table of nodes and to the order of their declaration.
use df_code_audit.Prelude.{
  ℕ, String, not, ◌&&◌, ◌||◌, ◌≡◌, refl, Option, none, some, inl, inr, Bool-cases, ◌==◌, ltb, ◌≤◌,
  ◌++◌, arith, Bool, true, false, List, [], ◌∷◌, if◌then◌else◌,
}
use df_code_audit.Prelude.Eq.{beq, String_eq}
use df_code_audit.Prelude.Dict.{Dict, lookup, insert}
use df_code_audit.Graph.Event.{
  EventType, node_claimed, node_released, node_lease_expired, node_reopened, human_message,
  node_declared, node_started, node_result, plan_triggered, paused, node_seeded, converged,
  unknown_type, Data, Envelope, text_of, text_field, texts_of,
}
use df_code_audit.Graph.State.{
  declared, status_beq, terminal, GraphNode, GraphState, new_node, add_node,
}
use df_code_audit.Graph.Numbering.{node_seq_of}
use df_code_audit.Graph.Apply.{
  put_node, with_node, Applied, parse_graph_time, fold_event, apply, apply_claimed, apply_released,
  apply_lease_expired, apply_reopened, message_of, declare_at, apply_declared, apply_started,
  apply_result, finish, apply_planned, mark_of, NodeOutcome, ends, again, no_outcome, outcome_of,
}

-- What an event keeps of a node that it writes.
abbrev pub declared_as : GraphNode → String × String × String × String × List String × ℕ
declared_as n = (n.id, n.node_type, n.intent, n.declared_by, n.from, n.created_at)

abbrev pub Grown : GraphNode → GraphNode → Type 0
Grown n m = (declared_as m ≡ declared_as n) × (n.attempts ≤ m.attempts)

pub data Step (nodes : Dict String GraphNode) (order : List String)
    : Dict String GraphNode → List String → Type 0 where
  kept : Step nodes order nodes order
  updated :
      (id : String) (n m : GraphNode)
      → lookup id nodes ≡ some n
      → Grown n m
      → Step nodes order (insert id m nodes) order
  added :
      (n : GraphNode)
      → lookup n.id nodes ≡ none
      → Step nodes order (insert n.id n nodes) (order ++ n.id ∷ [])

abbrev pub Change : GraphState → GraphState → Type 0
Change st st' = Step st.nodes st.order st'.nodes st'.order

same_table : {nodes : Dict String GraphNode} {order : List String} → Step nodes order nodes order
same_table = kept

abbrev Keeps : Data → GraphState → (GraphNode → Applied) → Type 0
Keeps fields st f =
    (n : GraphNode) → lookup (text_field "nodeId" fields) st.nodes ≡ some n → Change st (f n).0

with_node-Change :
    (fields : Data) (st : GraphState) (f : GraphNode → Applied) (o : Option GraphNode)
    → lookup (text_field "nodeId" fields) st.nodes ≡ o
    → Keeps fields st f
    → Change st (with_node o f st).0
with_node-Change fields st f none e k = kept
with_node-Change fields st f (some n) e k = k n e

changed :
    (fields : Data) (st : GraphState) (n m : GraphNode)
    → lookup (text_field "nodeId" fields) st.nodes ≡ some n
    → Grown n m
    → Change st (put_node (text_field "nodeId" fields) m st)
unfolding put_node
changed fields st n m e g = updated (text_field "nodeId" fields) n m e g

renumbered :
    (b : Bool) (k : ℕ) (st st' : GraphState)
    → Change st st'
    → Change st (if b then record st' { node_seq = k } else st')
renumbered true k st st' c = c
renumbered false k st st' c = c

add_new-Change :
    (id typ intent by : String) (from : List String) (created written : ℕ) (st : GraphState)
    → lookup id st.nodes ≡ none
    → Change st (add_node (new_node id typ intent by from created written) st)
unfolding new_node add_node
add_new-Change id typ intent by from created written st e =
    added (new_node id typ intent by from created written) e

module _ (parse_time parse_time_nano : String → Option ℕ) (now : ℕ) where
  claimed-Keeps :
      (fields : Data) (st : GraphState)
      → Keeps fields st
          (apply_claimed parse_time parse_time_nano now (text_field "nodeId" fields) fields st)
  unfolding apply_claimed
  claimed-Keeps fields st n e = elim (Bool-cases (not (status_beq n.status declared))) [
    | inl t ↦ rw (t, apply_claimed) same_table
    | inr t ↦ rw (t, apply_claimed) (changed fields st n _ e (refl, omega arith))
  ]

  released-Keeps :
      (fields : Data) (st : GraphState)
      → Keeps fields st
          (apply_released parse_time parse_time_nano now (text_field "nodeId" fields) st)
  unfolding apply_released
  released-Keeps fields st n e = elim (Bool-cases (beq n.holder "")) [
    | inl t ↦ rw (t, apply_released) same_table
    | inr t ↦ rw (t, apply_released) (changed fields st n _ e (refl, omega arith))
  ]

  reopened-Keeps :
      (fields : Data) (st : GraphState)
      → Keeps fields st
          (apply_reopened parse_time parse_time_nano now (text_field "nodeId" fields) st)
  unfolding apply_reopened
  reopened-Keeps fields st n e =
      elim (Bool-cases (not (terminal n.status) && not (status_beq n.status declared))) [
        | inl t ↦ rw (t, apply_reopened) same_table
        | inr t ↦ elim (Bool-cases (terminal n.status)) [
          | inl u ↦ rw (u, apply_reopened) (changed fields st n _ e (refl, omega arith))
          | inr u ↦ rw (t, u, apply_reopened) same_table
        ]
      ]

  started-Keeps :
      (fields : Data) (st : GraphState)
      → Keeps fields st
          (apply_started parse_time parse_time_nano now (text_field "nodeId" fields) st)
  unfolding apply_started
  started-Keeps fields st n e = changed fields st n _ e (refl, omega arith)

  expired-Keeps :
      (fields : Data) (st : GraphState)
      → Keeps fields st
          (apply_lease_expired parse_time parse_time_nano now (text_field "nodeId" fields) st)
  unfolding apply_lease_expired
  expired-Keeps fields st n e = changed fields st n _ e (refl, omega arith)

  finish-Change :
      (fields : Data) (st : GraphState) (o : NodeOutcome) (n m : GraphNode)
      → lookup (text_field "nodeId" fields) st.nodes ≡ some n
      → Grown n m
      → Change st (finish parse_time parse_time_nano now (text_field "nodeId" fields) o st m).0
  unfolding finish
  finish-Change fields st (ends s) n m e g = changed fields st n _ e g
  finish-Change fields st again n m e g = changed fields st n _ e (g.0, omega (arith, g.1))
  finish-Change fields st no_outcome n m e g = changed fields st n _ e g

  result-Keeps :
      (fields : Data) (st : GraphState)
      → Keeps fields st
          (apply_result parse_time parse_time_nano now (text_field "nodeId" fields) fields st)
  unfolding apply_result
  result-Keeps fields st n e =
      finish-Change fields st (outcome_of (text_field "outcome" fields)) n _ e (refl, omega arith)

  message-Change :
      (o : Option String) (st : GraphState)
      → Change st (message_of parse_time parse_time_nano now o st).0
  message-Change none st = same_table
  message-Change (some id) st = same_table

  mark-Change :
      (o : Option ℕ) (st : GraphState) → Change st (mark_of parse_time parse_time_nano now o st).0
  mark-Change none st = same_table
  mark-Change (some mark) st = same_table

  declare_at-Change :
      (id : String) (fields : Data) (st : GraphState) (o : Option GraphNode)
      → lookup id st.nodes ≡ o
      → Change st (declare_at parse_time parse_time_nano now id fields st o).0
  unfolding declare_at
  declare_at-Change id fields st (some n) e = elim (Bool-cases (status_beq n.status declared)) [
    | inl t ↦ rw (t, declare_at) same_table
    | inr t ↦ rw (t, declare_at) same_table
  ]
  declare_at-Change id fields st none e =
      renumbered (ltb st.node_seq (node_seq_of id)) (node_seq_of id) st _ (
        add_new-Change id (text_field "type" fields) (text_field "intent" fields)
          (text_field "declaredBy" fields) (texts_of (lookup "from" fields))
          (parse_graph_time parse_time parse_time_nano now (text_of (lookup "declaredAt" fields)))
          now st e)

  declared-Change :
      (fields : Data) (st : GraphState)
      → Change st (apply_declared parse_time parse_time_nano now fields st).0
  unfolding apply_declared
  declared-Change fields st =
      elim (Bool-cases (
        beq (text_field "nodeId" fields) ""
        || beq (text_field "type" fields) ""
        || beq (text_field "intent" fields) "")) [
          | inl t ↦ rw (t, apply_declared) same_table
          | inr t ↦
              rw (t, apply_declared)
                (declare_at-Change (text_field "nodeId" fields) fields st _ refl)
        ]

  planned-Change :
      (fields : Data) (st : GraphState)
      → Change st (apply_planned parse_time parse_time_nano now fields st).0
  unfolding apply_planned
  planned-Change fields st = elim (Bool-cases (not (beq (text_field "trigger" fields) "initial"))) [
    | inl t ↦ rw (t, apply_planned) same_table
    | inr t ↦ rw (t, apply_planned) same_table
  ]

  fold_event-Change :
      (kind : EventType) (fields : Data) (st : GraphState)
      → Change st (fold_event parse_time parse_time_nano now kind fields st).0
  unfolding fold_event
  fold_event-Change node_claimed fields st =
      with_node-Change fields st _ _ refl (claimed-Keeps fields st)
  fold_event-Change node_released fields st =
      with_node-Change fields st _ _ refl (released-Keeps fields st)
  fold_event-Change node_lease_expired fields st =
      with_node-Change fields st _ _ refl (expired-Keeps fields st)
  fold_event-Change node_reopened fields st =
      with_node-Change fields st _ _ refl (reopened-Keeps fields st)
  fold_event-Change human_message fields st = message-Change _ st
  fold_event-Change node_declared fields st = declared-Change fields st
  fold_event-Change node_started fields st =
      with_node-Change fields st _ _ refl (started-Keeps fields st)
  fold_event-Change node_result fields st =
      with_node-Change fields st _ _ refl (result-Keeps fields st)
  fold_event-Change plan_triggered fields st = planned-Change fields st
  fold_event-Change paused fields st = mark-Change _ st
  fold_event-Change node_seeded fields st = with_node-Change fields st _ _ refl (λ n e. same_table)
  fold_event-Change converged fields st = same_table
  fold_event-Change (unknown_type s) fields st = same_table

  -- Whatever event is applied, accepted or refused: it leaves the table and the order as they are, or
  -- writes one node that is there, or adds one that is not, at the end of the order. A write keeps the
  -- node's id, type, intent, declarer, dependencies and time of declaration, and takes no attempt away.
  pub apply-Change :
      (env : Envelope) (st : GraphState) → Change st (apply parse_time parse_time_nano now env st).0
  unfolding apply
  apply-Change env st = elim (Bool-cases (env.seq == 0)) [
    | inl t ↦ rw (t, apply) same_table
    | inr t ↦ elim (Bool-cases (ltb st.last_seq env.seq)) [
      | inl u ↦ rw (t, u, apply) (fold_event-Change env.kind env.event_data _)
      | inr u ↦ rw (t, u, apply) (fold_event-Change env.kind env.event_data _)
    ]
  ]
