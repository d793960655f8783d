-- ===== src/Graph/Apply/Table.antt =====
-- The table of nodes and the order of their declaration, and the writes that keep them in step.
use df_code_audit.Prelude.{
  ℕ, ◌++◌, String, Bool, true, false, ◌≡◌, refl, sym, ap, ◌∙◌, Option, none, some, List, [], ◌∷◌,
  arith, if◌then◌else◌,
}
use df_code_audit.Prelude.Eq.{beq, String_eq, contains, contains-append, Distinct, Distinct-snoc}
use text.Mathlib.TextEquality.{eq_iff}
use df_code_audit.Prelude.Dict.{Dict, lookup, insert, lookup-insert, lookup-nil}
use df_code_audit.Graph.State.{GraphNode, GraphState, new_graph_state}
use df_code_audit.Graph.Apply.Change.{Step, kept, updated, added}

abbrev pub is_there : Option GraphNode → Bool
is_there none = false
is_there (some n) = true

-- `order` names each key of the table once, and a node stands under its own id.
pub record Table (nodes : Dict String GraphNode) (order : List String) : Type 0 where
  pub distinct : Distinct order
  pub listed : (id : String) → is_there (lookup id nodes) ≡ contains id order
  pub named : (id : String) (n : GraphNode) → lookup id nodes ≡ some n → n.id ≡ id

abbrev pub WellFormed : GraphState → Type 0
WellFormed st = Table st.nodes st.order

none-some : {n : GraphNode} → none ≡ some n → ⊥
none-some e = cc

some_eq : {m n : GraphNode} → some m ≡ some n → m ≡ n
some_eq e = cc

picked :
    (j : String) (b : Bool) (n m : GraphNode) (o : Option GraphNode)
    → (if b then some n else o) ≡ some m
    → (b ≡ true → n.id ≡ j)
    → (o ≡ some m → m.id ≡ j)
    → m.id ≡ j
picked j true n m o h new old = ap (λ (g : GraphNode). g.id) (sym (some_eq h)) ∙ new refl
picked j false n m o h new old = old h

named_insert :
    (nodes : Dict String GraphNode) (id : String) (n : GraphNode)
    → n.id ≡ id
    → ((j : String) (m : GraphNode) → lookup j nodes ≡ some m → m.id ≡ j)
    → (j : String) (m : GraphNode) → lookup j (insert id n nodes) ≡ some m
    → m.id ≡ j
named_insert nodes id n e h j m found =
    picked j (beq id j) n m (lookup j nodes) (sym (lookup-insert id j n nodes) ∙ found)
      (λ t. e ∙ (eq_iff id j).0 t) (h j m)

insert-Table :
    (id : String) (n : GraphNode) (nodes : Dict String GraphNode) (order : List String)
    → Table nodes order
    → is_there (lookup id nodes) ≡ true
    → n.id ≡ id
    → Table (insert id n nodes) order
insert-Table id n nodes order w there e = record {
  distinct = w.distinct;
  listed =
      λ j. ground (arith, lookup-insert id j n nodes, w.listed j, w.listed id, eq_iff id j, there);
  named = named_insert nodes id n e w.named;
}

add-Table :
    (n : GraphNode) (nodes : Dict String GraphNode) (order : List String)
    → Table nodes order
    → lookup n.id nodes ≡ none
    → Table (insert n.id n nodes) (order ++ n.id ∷ [])
add-Table n nodes order w fresh = record {
  distinct = Distinct-snoc order n.id (ground (arith, w.listed n.id, fresh)) w.distinct;
  listed = λ j. ground (
    arith,
    lookup-insert n.id j n nodes,
    w.listed j,
    eq_iff n.id j,
    contains-append j order (n.id ∷ []),
  );
  named = named_insert nodes n.id n refl w.named;
}

-- What an event does to the table keeps it in step.
pub Step-Table :
    {nodes nodes' : Dict String GraphNode} {order order' : List String}
    → Step nodes order nodes' order'
    → Table nodes order
    → Table nodes' order'
Step-Table kept w = w
Step-Table {nodes} {order = o} (updated id n m e g) w =
    insert-Table id m nodes o w (rw e refl)
      (ap (λ (d : String × String × String × String × List String × ℕ). d.0) g.0 ∙ w.named id n e)
Step-Table {nodes} {order = o} (added n e) w = add-Table n nodes o w e

-- A replay starts well formed.
pub new_graph_state-WellFormed : WellFormed new_graph_state
unfolding new_graph_state
new_graph_state-WellFormed = record {
  distinct = tt;
  listed = λ id. ap is_there (lookup-nil id);
  named = λ id n e. absurd (none-some (sym (lookup-nil id) ∙ e));
}
