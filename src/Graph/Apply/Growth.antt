-- ===== src/Graph/Apply/Growth.antt =====
-- What is declared stays.
use df_code_audit.Prelude.{
  ℕ, String, ◌≡◌, refl, sym, subst, ◌∙◌, Option, none, some, List, inl, inr, Bool-cases, arith,
}
use df_code_audit.Prelude.Eq.{beq, String_eq}
use text.Mathlib.TextEquality.{eq_iff}
use df_code_audit.Prelude.Dict.{Dict, lookup, insert, lookup-insert}
use df_code_audit.Graph.Event.{Envelope}
use df_code_audit.Graph.State.{GraphNode, GraphState}
use df_code_audit.Graph.Apply.{apply}
use df_code_audit.Graph.Apply.Change.{Step, kept, updated, added, Grown, apply-Change}

-- Each node of the first table is in the second one, as it was declared and with no attempt less.
abbrev pub Survive : Dict String GraphNode → Dict String GraphNode → Type 0
Survive nodes nodes' =
    (j : String) (n : GraphNode)
    → lookup j nodes ≡ some n
    → (m : GraphNode) × (lookup j nodes' ≡ some m) × Grown n m

some_eq : {m n : GraphNode} → some m ≡ some n → m ≡ n
some_eq e = cc

none-some : {n : GraphNode} → none ≡ some n → ⊥
none-some e = cc

Grown-refl : (n : GraphNode) → Grown n n
Grown-refl n = (refl, omega arith)

insert-Survive :
    (id : String) (n m : GraphNode) (nodes : Dict String GraphNode)
    → lookup id nodes ≡ some n
    → Grown n m
    → Survive nodes (insert id m nodes)
insert-Survive id n m nodes e g j k found = elim (Bool-cases (beq id j)) [
  | inl t ↦ (
    m,
    lookup-insert id j m nodes ∙ rw t refl,
    subst (λ x. Grown x m)
        (some_eq (sym e ∙ subst (λ i. lookup i nodes ≡ some k) (sym ((eq_iff id j).0 t)) found)) g,
  )
  | inr f ↦ (k, lookup-insert id j m nodes ∙ rw f found, Grown-refl k)
]

add-Survive :
    (n : GraphNode) (nodes : Dict String GraphNode)
    → lookup n.id nodes ≡ none
    → Survive nodes (insert n.id n nodes)
add-Survive n nodes e j k found = elim (Bool-cases (beq n.id j)) [
  | inl t ↦
      absurd
        (none-some (sym e ∙ subst (λ i. lookup i nodes ≡ some k) (sym ((eq_iff n.id j).0 t)) found))
  | inr f ↦ (k, lookup-insert n.id j n nodes ∙ rw f found, Grown-refl k)
]

Step-Survive :
    {nodes nodes' : Dict String GraphNode} {order order' : List String}
    → Step nodes order nodes' order'
    → Survive nodes nodes'
Step-Survive kept j n found = (n, found, Grown-refl n)
Step-Survive {nodes} (updated id n m e g) j k found = insert-Survive id n m nodes e g j k found
Step-Survive {nodes} (added n e) j k found = add-Survive n nodes e j k found

-- No event takes a node away: each node of the state is there after it, with the same type, intent,
-- declarer, dependencies and time of declaration, and with no attempt less.
pub apply-Survive :
    (parse_time parse_time_nano : String → Option ℕ) (now : ℕ) (env : Envelope) (st : GraphState)
    → Survive st.nodes (apply parse_time parse_time_nano now env st).0.nodes
apply-Survive parse_time parse_time_nano now env st =
    Step-Survive (apply-Change parse_time parse_time_nano now env st)
