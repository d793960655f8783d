-- ===== src/Packs/Valid.antt =====
-- What a pack that passes the validation has.
use df_code_audit.Prelude.{
  is_negative, String, true, false, ◌||◌, not, ◌≡◌, ◌⊎◌, refl, subst, Option, none, some, List, [],
  ◌∷◌, all, All, arith, inl, inr, Bool-cases,
}
use df_code_audit.Prelude.Eq.{beq, String_eq, contains, Distinct}
use df_code_audit.Prelude.Text.{codes}
use text.Mathlib.TextEquality.{eq_iff}
use df_code_audit.Packs.{
  GraphSpec, Spec, Pack, Refs, PackError, constraint_matches, name_matches, is_zero_graph, is_blank,
  is_node_type, validate, Loaded, packs, refused, unreadable, duplicate, with_pack, checked_pack,
  load_dir,
}
use df_code_audit.Packs.Anchor.{Anchored}

none_equal :
    (c : String) (seen cs : List String)
    → all (λ d. not (contains d (c ∷ seen))) cs ≡ true
    → all (λ d. not (beq c d)) cs ≡ true
none_equal c seen [] h = refl
none_equal c seen (d ∷ cs) h = ground (arith, h, none_equal c seen cs (ground (arith, h)))

fewer :
    (c : String) (seen cs : List String)
    → all (λ d. not (contains d (c ∷ seen))) cs ≡ true
    → all (λ d. not (contains d seen)) cs ≡ true
fewer c seen [] h = refl
fewer c seen (d ∷ cs) h = ground (arith, h, fewer c seen cs (ground (arith, h)))

apart : (c : String) (cs : List String) → all (λ d. not (beq c d)) cs ≡ true → contains c cs ≡ false
apart c [] h = refl
apart c (d ∷ cs) h = ground (arith, h, apart c cs (ground (arith, h)), eq_iff c d, eq_iff d c)

abbrev pub GraphOk : GraphSpec → Type 0
GraphOk g =
    (all (λ s. not (is_blank s)) g.seed_intents ≡ true)
    × (is_negative g.constraints.max_nodes ≡ false)
    × (all is_node_type g.constraints.allowed_types ≡ true)
    × (is_negative g.constraints.max_planner_replans ≡ false)
    × (is_negative g.constraints.max_attempts_per_node ≡ false)
    × (is_negative g.timeouts.planner ≡ false)
    × (is_negative g.timeouts.executor ≡ false)
    × (is_negative g.timeouts.verifier ≡ false)

-- A session has no graph section, and a graph has a sound one.
abbrev pub ExecutionOk : Spec → Type 0
ExecutionOk s =
    (((beq s.execution "" || beq s.execution "session") ≡ true) × (is_zero_graph s.graph ≡ true))
    ⊎ ((s.execution ≡ "graph") × GraphOk s.graph)

-- What the validation promises of a pack.
pub record Valid (refs : Refs) (p : Pack) : Type 0 where
  pub name : name_matches (codes p.name) ≡ true
  pub dialect : contains p.spec.dialect refs.dialects ≡ true
  pub profile : contains p.spec.network_profile refs.profiles ≡ true
  pub renderer : contains p.spec.brief_renderer refs.renderers ≡ true
  pub target : contains p.spec.render_target refs.targets ≡ true
  pub template : Anchored refs.template_ids (codes p.spec.template_ref)
  pub schema : Anchored refs.schema_refs (codes p.spec.schema_ref)
  pub parser : contains p.spec.parser refs.parsers ≡ true
  pub keys : Distinct p.spec.constraints_schema
  pub key_texts : all (λ c. constraint_matches (codes c)) p.spec.constraints_schema ≡ true
  pub execution : ExecutionOk p.spec

abbrev pub names : List Pack → List String
names [] = []
names (p ∷ ps) = p.name ∷ names ps

-- Of a loaded directory: every pack passes, and no name stands twice or among those before.
abbrev Sound : Refs → List String → Loaded → Type 0
Sound refs seen (packs ps) =
    All (λ p. validate refs p ≡ none) ps
    × Distinct (names ps)
    × (all (λ n. not (contains n seen)) (names ps) ≡ true)
Sound refs seen l = Unit

with_pack-Sound :
    (refs : Refs) (seen : List String) (p : Pack) (rest : Loaded)
    → validate refs p ≡ none
    → contains p.name seen ≡ false
    → Sound refs (p.name ∷ seen) rest
    → Sound refs seen (with_pack p rest)
with_pack-Sound refs seen p (packs ps) v f s = (
  (v, s.0),
  (apart p.name (names ps) (none_equal p.name seen (names ps) s.2), s.1),
  ground (arith, f, fewer p.name seen (names ps) s.2),
)
with_pack-Sound refs seen p (refused e) v f s = tt
with_pack-Sound refs seen p unreadable v f s = tt
with_pack-Sound refs seen p (duplicate n) v f s = tt

checked_pack-Sound :
    (refs : Refs) (seen : List String) (p : Pack) (o : Option PackError) (rest : Loaded)
    → validate refs p ≡ o
    → Sound refs (p.name ∷ seen) rest
    → Sound refs seen (checked_pack o p seen rest)
checked_pack-Sound refs seen p (some e) rest v s = tt
checked_pack-Sound refs seen p none rest v s = elim (Bool-cases (contains p.name seen)) [
  | inl t ↦ rw t tt
  | inr f ↦ rw f (with_pack-Sound refs seen p rest v f s)
]

load_dir-Sound :
    (refs : Refs) (seen : List String) (files : List (Option Pack))
    → Sound refs seen (load_dir refs seen files)
unfolding load_dir
load_dir-Sound refs seen [] = (tt, tt, refl)
load_dir-Sound refs seen (none ∷ files) = tt
load_dir-Sound refs seen (some p ∷ files) =
    checked_pack-Sound refs seen p (validate refs p) _ refl
      (load_dir-Sound refs (p.name ∷ seen) files)

-- A directory that loads gives packs that all pass the validation and whose names are distinct.
pub load_dir-packs :
    (refs : Refs) (files : List (Option Pack)) (ps : List Pack)
    → load_dir refs [] files ≡ packs ps
    → All (λ p. validate refs p ≡ none) ps × Distinct (names ps)
load_dir-packs refs files ps h =
    let s = subst (λ (l : Loaded). Sound refs [] l) h (load_dir-Sound refs [] files) in (s.0, s.1)
