-- ===== src/Graph/Replay/Orphans.antt =====
-- What the recovery at the end of a replay does to the nodes that were left running.
use df_code_audit.Prelude.{
  ℕ, suc, String, Bool, true, false, ◌≡◌, refl, sym, ap, subst, ◌∙◌, Option, none, some, List, [],
  ◌∷◌, ◌++◌, arith, inl, inr, Bool-cases, if◌then◌else◌, filter,
}
use df_code_audit.Prelude.Eq.{beq, String_eq, contains, Distinct}
use text.Mathlib.TextEquality.{eq_iff}
use mathlib.Core.List.{append-nil, append_assoc}
use df_code_audit.Prelude.Dict.{Dict, lookup, lookup-insert}
use df_code_audit.Graph.State.{
  declared, running, status_beq, GraphNode, GraphState, new_graph_state,
}
use df_code_audit.Graph.Apply.{GraphError, put_node}
use df_code_audit.Graph.Apply.Table.{WellFormed, is_there, new_graph_state-WellFormed}
use df_code_audit.Graph.Apply.WellFormed.{apply-WellFormed}
use df_code_audit.Graph.Replay.{
  Line, event, blank, torn, too_long, Replayed, rebuilt, is_running, recover_node, recover_all,
  recover_running_orphans, replay_lines, replay_graph_log, go_on, recovering,
}

-- A running node goes back to declared, with one more attempt; any other stays.
abbrev pub revived : ℕ → Option GraphNode → Option GraphNode
revived now none = none
revived now (some n) =
    if status_beq n.status running
    then some (record n { status = declared; attempts = suc n.attempts; updated_at = now })
    else some n

recover_node-lookup :
    (now : ℕ) (id : String) (o : Option GraphNode) (st : GraphState) (j : String)
    → lookup id st.nodes ≡ o
    → lookup j (recover_node now id o st).nodes
      ≡ (if beq id j then revived now o else lookup j st.nodes)
unfolding recover_node put_node
recover_node-lookup now id none st j e = ground (arith, eq_iff id j)
recover_node-lookup now id (some n) st j e = elim (Bool-cases (status_beq n.status running)) [
  | inl t ↦ rw (t, recover_node) (lookup-insert id j _ st.nodes)
  | inr t ↦ rw (t, recover_node) (ground (arith, eq_iff id j))
]

recover_node-recovered :
    (now : ℕ) (id : String) (o : Option GraphNode) (st : GraphState)
    → (recover_node now id o st).recovered_nodes
      ≡ st.recovered_nodes ++ (if is_running o then id ∷ [] else [])
unfolding recover_node put_node
recover_node-recovered now id none st = sym (append-nil st.recovered_nodes)
recover_node-recovered now id (some n) st = elim (Bool-cases (status_beq n.status running)) [
  | inl t ↦ rw (t, recover_node) refl
  | inr t ↦ rw (t, recover_node) (sym (append-nil st.recovered_nodes))
]

-- The running ones among the given ids, before the loop.
abbrev pub running_among : Dict String GraphNode → List String → List String
running_among nodes = filter (λ id. is_running (lookup id nodes))

recover_all-lookup :
    (now : ℕ) (ids : List String) (st : GraphState) (j : String)
    → Distinct ids
    → lookup j (recover_all now ids st).nodes
      ≡ (if contains j ids then revived now (lookup j st.nodes) else lookup j st.nodes)
unfolding recover_all
recover_all-lookup now [] st j d = refl
recover_all-lookup now (id ∷ ids) st j d =
    let st' = recover_node now id (lookup id st.nodes) st in
    let rest = recover_all-lookup now ids st' j d.1 in
    let here = recover_node-lookup now id (lookup id st.nodes) st j refl in
    rest ∙ elim (Bool-cases (beq id j)) [
      | inl t ↦ rw (here, t, sym ((eq_iff id j).0 t), d.0) refl
      | inr t ↦ rw (here, t) refl
    ]

true-false : true ≡ false → ⊥
true-false e = cc

added_front :
    (b : Bool) (id : String) (xs ys : List String)
    → (xs ++ (if b then id ∷ [] else [])) ++ ys ≡ xs ++ (if b then id ∷ ys else ys)
added_front true id xs ys = append_assoc xs (id ∷ []) ys
added_front false id xs ys = append_assoc xs [] ys

recover_all-recovered :
    (now : ℕ) (nodes : Dict String GraphNode) (ids : List String) (st : GraphState)
    → Distinct ids
    → ((j : String) → contains j ids ≡ true → lookup j st.nodes ≡ lookup j nodes)
    → (recover_all now ids st).recovered_nodes ≡ st.recovered_nodes ++ running_among nodes ids
unfolding recover_all
recover_all-recovered now nodes [] st d same = sym (append-nil st.recovered_nodes)
recover_all-recovered now nodes (id ∷ ids) st d same =
    let st' = recover_node now id (lookup id st.nodes) st in
    let here = same id (ground (arith, eq_iff id id)) in
    recover_all-recovered now nodes ids st' d.1 (λ j there. elim (Bool-cases (beq id j)) [
      | inl t ↦ absurd (true-false (sym there ∙ rw (sym ((eq_iff id j).0 t)) d.0))
      | inr t ↦
          recover_node-lookup now id (lookup id st.nodes) st j refl
          ∙ rw t (same j (ground (arith, there)))
    ])
    ∙ ap (λ xs. xs ++ running_among nodes ids)
        (recover_node-recovered now id (lookup id st.nodes) st)
    ∙ rw here
        (added_front (is_running (lookup id nodes)) id st.recovered_nodes (running_among nodes ids))

revived-not_running : (now : ℕ) (o : Option GraphNode) → is_running (revived now o) ≡ false
revived-not_running now none = refl
revived-not_running now (some n) = ground arith

-- An id that is not in the order of a well-formed state has no node to revive.
revived_listed :
    (now : ℕ) (o : Option GraphNode) (b : Bool)
    → is_there o ≡ b
    → (if b then revived now o else o) ≡ revived now o
revived_listed now none b e = ground arith
revived_listed now (some n) b e = ground arith

rebuilt_eq : {a b : GraphState} → rebuilt a ≡ rebuilt b → a ≡ b
rebuilt_eq e = cc

module _ (parse_time parse_time_nano : String → Option ℕ) (clock : ℕ → ℕ) where
  go_on-WellFormed :
      (r : GraphState × Option GraphError) (f : GraphState → Replayed) (st : GraphState)
      → WellFormed r.0
      → ((mid : GraphState) → WellFormed mid → f mid ≡ rebuilt st → WellFormed st)
      → go_on parse_time parse_time_nano clock r f ≡ rebuilt st
      → WellFormed st
  go_on-WellFormed (mid, none) f st w k e = k mid w e
  go_on-WellFormed (mid, some err) f st w k e = cc

  pub replay_lines-WellFormed :
      (lines : List Line) (start st : GraphState)
      → WellFormed start
      → replay_lines parse_time parse_time_nano clock lines start ≡ rebuilt st
      → WellFormed st
  unfolding replay_lines
  replay_lines-WellFormed [] start st w e = subst WellFormed (rebuilt_eq e) w
  replay_lines-WellFormed (blank ∷ lines) start st w e = replay_lines-WellFormed lines start st w e
  replay_lines-WellFormed (torn ∷ lines) start st w e = replay_lines-WellFormed lines _ st w e
  replay_lines-WellFormed (too_long ∷ lines) start st w e = cc
  replay_lines-WellFormed (event env ∷ lines) start st w e =
      go_on-WellFormed _ _ st
        (apply-WellFormed parse_time parse_time_nano (clock start.lines) env start w)
        (λ mid v. replay_lines-WellFormed lines mid st v) e

  -- If the lines are folded without a refusal, the replay succeeds. Every node is as the lines left
  -- it, but the running ones are declared again, with one more attempt; so no node is running, and
  -- the nodes that were so are recorded, in the order of their declaration.
  pub replay_graph_log-orphans :
      (lines : List Line) (before : GraphState)
      → replay_lines parse_time parse_time_nano clock lines new_graph_state ≡ rebuilt before
      → (st : GraphState) × (replay_graph_log parse_time parse_time_nano clock lines ≡ rebuilt st)
        × ((j : String) → lookup j st.nodes ≡ revived (clock before.lines) (lookup j before.nodes))
        × ((j : String) → is_running (lookup j st.nodes) ≡ false)
        × (st.recovered_nodes ≡ before.recovered_nodes ++ running_among before.nodes before.order)
  unfolding replay_graph_log recover_running_orphans
  replay_graph_log-orphans lines before e =
      let w = replay_lines-WellFormed lines new_graph_state before new_graph_state-WellFormed e in
      let now = clock before.lines in
      let revive = λ (j : String).
        recover_all-lookup now before.order before j w.distinct
        ∙ revived_listed now (lookup j before.nodes) (contains j before.order) (w.listed j) in
      (
        recover_running_orphans now before,
        ap (recovering parse_time parse_time_nano clock) e,
        revive,
        λ j. ap is_running (revive j) ∙ revived-not_running now (lookup j before.nodes),
        recover_all-recovered now before.nodes before.order before w.distinct (λ j t. refl),
      )
