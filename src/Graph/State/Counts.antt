-- ===== src/Graph/State/Counts.antt =====
-- The readers of the node table that scan it whole.
use df_code_audit.Prelude.{
  ◌+◌, String, ◌≡◌, refl, Option, none, some, List, [], ◌∷◌, map, filter, length, arith,
}
use df_code_audit.Graph.State.{
  GraphNode, GraphState, declared, running, completed, failed, rejected, is_open, in_order, first,
  find_open, next_open, open_ids, count_status, counts, values,
}

count_status-total :
    (ns : List GraphNode)
    → length ns
      ≡ count_status completed ns
        + count_status failed ns
        + count_status rejected ns
        + count_status declared ns
        + count_status running ns
count_status-total [] = omega arith
count_status-total (n ∷ ns) = ground (arith, count_status-total ns)

-- The total is the sum of the four counts and of the running nodes, which have no count.
pub counts-total :
    (st : GraphState)
    → let (total, c, f, r, o) = counts st in
      total ≡ c + f + r + o + count_status running (values st.nodes)
unfolding counts
counts-total st = count_status-total (values st.nodes)

find_open-first : (ns : List GraphNode) → find_open ns ≡ first (filter is_open ns)
unfolding find_open
find_open-first [] = refl
find_open-first (n ∷ ns) = ground (arith, find_open-first ns)

abbrev pub id_of : Option GraphNode → Option String
id_of none = none
id_of (some n) = some n.id

first-map : (ns : List GraphNode) → id_of (first ns) ≡ first (map (λ (n : GraphNode). n.id) ns)
first-map [] = refl
first-map (n ∷ ns) = refl

-- The scheduler's next node is the first of the open set that a pause records, and there is none
-- exactly if the open set is empty.
pub next_open-open_ids : (st : GraphState) → id_of (next_open st) ≡ first (open_ids st)
unfolding next_open open_ids
next_open-open_ids st =
    rw (find_open-first (in_order st)) (first-map (filter is_open (in_order st)))
