-- ===== src/Graph/State/Ready.antt =====
-- Which nodes a wave of the scheduler is given.
use mathlib.Core.List.{append-nil, append_assoc}
use df_code_audit.Prelude.{
  ℕ, zero, suc, ◌+◌, String, Bool, true, false, ◌&&◌, ◌≡◌, refl, sym, ◌∙◌, ◌↔◌, Option, none, some,
  List, [], ◌∷◌, ◌++◌, length, filter, all, take, if◌then◌else◌, ◌==◌, ltb, leb, arith, inl, inr,
  Bool-cases, length-append, All,
}
use df_code_audit.Prelude.Eq.{String_eq}
use df_code_audit.Prelude.Dict.{Dict, lookup}
use text.Mathlib.TextEquality.{eq_iff}
use df_code_audit.Graph.State.{
  GraphNode, GraphState, declared, terminal, is_ready, dep_done, in_order, collect_ready,
  claimable_ready,
}

collect_ready-unlimited :
    (ready : GraphNode → Bool) (ns acc : List GraphNode)
    → collect_ready 0 ready ns acc ≡ acc ++ filter ready ns
unfolding collect_ready
collect_ready-unlimited ready [] acc = sym (append-nil acc)
collect_ready-unlimited ready (n ∷ ns) acc = elim (Bool-cases (ready n)) [
  | inl e ↦
      rw (e, collect_ready)
        (collect_ready-unlimited ready ns (acc ++ n ∷ [])
          ∙ append_assoc acc (n ∷ []) (filter ready ns))
  | inr e ↦ rw (e, collect_ready) (collect_ready-unlimited ready ns acc)
]

collect_ready-full :
    (limit : ℕ) (ready : GraphNode → Bool) (n : GraphNode) (ns acc : List GraphNode)
    → ready n ≡ true
    → (ltb 0 limit && leb limit (length (acc ++ n ∷ []))) ≡ true
    → collect_ready limit ready (n ∷ ns) acc ≡ acc ++ n ∷ []
unfolding collect_ready
collect_ready-full limit ready n ns acc e full = rw (e, full, collect_ready)

collect_ready-more :
    (limit : ℕ) (ready : GraphNode → Bool) (n : GraphNode) (ns acc : List GraphNode)
    → ready n ≡ true
    → (ltb 0 limit && leb limit (length (acc ++ n ∷ []))) ≡ false
    → collect_ready limit ready (n ∷ ns) acc ≡ collect_ready limit ready ns (acc ++ n ∷ [])
unfolding collect_ready
collect_ready-more limit ready n ns acc e more = rw (e, more, collect_ready)

collect_ready-skip :
    (limit : ℕ) (ready : GraphNode → Bool) (n : GraphNode) (ns acc : List GraphNode)
    → ready n ≡ false
    → collect_ready limit ready (n ∷ ns) acc ≡ collect_ready limit ready ns acc
unfolding collect_ready
collect_ready-skip limit ready n ns acc e = rw (e, collect_ready)

collect_ready-nil :
    (limit : ℕ) (ready : GraphNode → Bool) (acc : List GraphNode)
    → collect_ready limit ready [] acc ≡ acc
unfolding collect_ready
collect_ready-nil limit ready acc = refl

length-snoc : (acc : List GraphNode) (n : GraphNode) → length (acc ++ n ∷ []) ≡ length acc + 1
length-snoc acc n = length-append acc (n ∷ [])

collect_ready-step :
    (limit : ℕ) (ready : GraphNode → Bool) (n : GraphNode) (ns acc : List GraphNode) (k : ℕ)
    → ready n ≡ true
    → length acc + suc k ≡ limit
    → ((k' : ℕ)
        → length (acc ++ n ∷ []) + suc k' ≡ limit
        → collect_ready limit ready ns (acc ++ n ∷ [])
          ≡ (acc ++ n ∷ []) ++ take (suc k') (filter ready ns))
    → collect_ready limit ready (n ∷ ns) acc ≡ acc ++ n ∷ take k (filter ready ns)
collect_ready-step limit ready n ns acc zero e room rest =
    collect_ready-full limit ready n ns acc e (ground (arith, length-snoc acc n))
collect_ready-step limit ready n ns acc (suc k) e room rest =
    collect_ready-more limit ready n ns acc e (ground (arith, length-snoc acc n))
    ∙ rest k (omega (arith, length-snoc acc n))
    ∙ append_assoc acc (n ∷ []) (take (suc k) (filter ready ns))

-- With room for `suc k` more, the loop takes that many of the ready nodes, and no more.
collect_ready-limited :
    (limit : ℕ) (ready : GraphNode → Bool) (ns acc : List GraphNode) (k : ℕ)
    → length acc + suc k ≡ limit
    → collect_ready limit ready ns acc ≡ acc ++ take (suc k) (filter ready ns)
collect_ready-limited limit ready [] acc k room =
    collect_ready-nil limit ready acc ∙ sym (append-nil acc)
collect_ready-limited limit ready (n ∷ ns) acc k room = elim (Bool-cases (ready n)) [
  | inr e ↦
      rw e (
        collect_ready-skip limit ready n ns acc e ∙ collect_ready-limited limit ready ns acc k room)
  | inl e ↦ rw e (
      collect_ready-step limit ready n ns acc k e room
        (λ k' room'. collect_ready-limited limit ready ns (acc ++ n ∷ []) k' room'))
]

-- A wave holds the ready nodes in the order of their declaration: all of them without a limit, and
-- with a positive limit the first so many.
pub claimable_ready-wave :
    (limit now : ℕ) (st : GraphState)
    → (claimable_ready limit now st).0 ≡ (
        if limit == 0
        then filter (is_ready st.nodes) (in_order st)
        else take limit (filter (is_ready st.nodes) (in_order st)))
unfolding claimable_ready
claimable_ready-wave zero now st = collect_ready-unlimited (is_ready st.nodes) (in_order st) []
claimable_ready-wave (suc k) now st =
    ground
      (arith, collect_ready-limited (suc k) (is_ready st.nodes) (in_order st) [] k (omega arith))

-- A dependency that is there and terminal.
abbrev pub Done : Dict String GraphNode → String → Type 0
Done nodes dep = (d : GraphNode) × (lookup dep nodes ≡ some d) × (terminal d.status ≡ true)

dep_sound :
    (o : Option GraphNode)
    → dep_done o ≡ true
    → (d : GraphNode) × (o ≡ some d) × (terminal d.status ≡ true)
dep_sound none h = cc
dep_sound (some d) h = (d, refl, h)

deps_sound :
    (nodes : Dict String GraphNode) (deps : List String)
    → all (λ dep. dep_done (lookup dep nodes)) deps ≡ true
    → All (Done nodes) deps
deps_sound nodes [] h = tt
deps_sound nodes (dep ∷ deps) h =
    (dep_sound (lookup dep nodes) (ground arith), deps_sound nodes deps (ground arith))

deps_complete :
    (nodes : Dict String GraphNode) (deps : List String)
    → All (Done nodes) deps
    → all (λ dep. dep_done (lookup dep nodes)) deps ≡ true
deps_complete nodes [] h = refl
deps_complete nodes (dep ∷ deps) ((d, found, done), rest) =
    rw (found, done) (deps_complete nodes deps rest)

-- A node is ready exactly if it is declared, nobody holds it, and every node that it depends on has
-- been declared and is terminal.
pub is_ready_iff :
    (nodes : Dict String GraphNode) (n : GraphNode)
    → (is_ready nodes n ≡ true)
      ↔ ((n.status ≡ declared) × (n.holder ≡ "") × All (Done nodes) n.from)
unfolding is_ready
is_ready_iff nodes n = (
  λ h.
      (ground arith, (eq_iff n.holder "").0 (ground arith), deps_sound nodes n.from (ground arith)),
  λ p. ground (arith, eq_iff n.holder "", deps_complete nodes n.from p.2),
)
