-- ===== src/Packs.antt =====
-- engine/services/task-service/internal/pack/pack.go: the workload packs and their validation. The
-- YAML decoder, the directory's files and the hash are parameters or left out. An error is the path of
-- the field that it names.
pub mod Anchor
pub mod Valid
use df_code_audit.Prelude.{
  ℕ, suc, ◌+◌, ◌≤◌, ℤ, pos, negsuc, is_negative, String, Bool, true, false, ◌&&◌, ◌||◌, not, Option,
  none, some, List, [], ◌∷◌, ◌++◌, any, all, leb, length, if◌then◌else◌, ◌==◌,
}
use df_code_audit.Prelude.Eq.{beq, String_eq, contains}
use df_code_audit.Prelude.Text.{Bytes, codes, bytes_beq, trim_space, is_empty}

pub record GraphConstraints : Type 0 where
  pub max_nodes : ℤ
  pub allowed_types : List String
  pub max_planner_replans : ℤ
  pub max_attempts_per_node : ℤ

pub record GraphTimeouts : Type 0 where
  pub planner : ℤ
  pub executor : ℤ
  pub verifier : ℤ

pub record GraphSpec : Type 0 where
  pub seed_intents : List String
  pub constraints : GraphConstraints
  pub timeouts : GraphTimeouts

-- The nested sections for the network, the seeds, the results and the timeouts are flat here.
pub record Spec : Type 0 where
  pub image : String
  pub dialect : String
  pub network_profile : String
  pub brief_renderer : String
  pub render_target : String
  pub template_ref : String
  pub schema_ref : String
  pub parser : String
  pub per_turn : String
  pub task_total : String
  pub constraints_schema : List String
  pub execution : String
  pub graph : GraphSpec

pub record Pack : Type 0 where
  pub api_version : String
  pub kind : String
  pub name : String
  pub description : String
  pub spec : Spec

-- The known names; `none` is the nil map, with which an id is not looked up.
pub record Refs : Type 0 where
  pub dialects : List String
  pub parsers : List String
  pub renderers : List String
  pub targets : List String
  pub profiles : List String
  pub template_ids : Option (List String)
  pub schema_refs : Option (List String)

unfoldable pub default_refs : Refs
default_refs = record {
  dialects = "dsh-sse" ∷ "acp-stdio" ∷ "maka-runtime-host" ∷ "mock-stdio" ∷ [];
  parsers = "codeaudit-submit" ∷ "text-final" ∷ [];
  renderers = "baton-brief" ∷ [];
  targets = "task-card-prefix" ∷ "initial-prompt" ∷ [];
  profiles = "restricted" ∷ "targeted" ∷ [];
  template_ids = some ("assignmentTemplate" ∷ "patchPhaseTemplate" ∷ []);
  schema_refs = some ("findings/submit_findings" ∷ "findings/submit_patches" ∷ []);
}

pub data PackError : Type 0 where
  field : String → PackError
  seed_intent : ℕ → PackError

-- unicode.ToLower on the characters whose lower case is in ASCII
unfoldable pub to_lower : ℕ → ℕ
to_lower c =
    if leb 65 c && leb c 90 then c + 32 else if c == 304 then 105 else if c == 8490 then 107 else c

unfoldable pub lower : Bytes → Bytes
unfolding to_lower
lower [] = []
lower (c ∷ s) = to_lower c ∷ lower s

unfoldable pub float_tags : List String
float_tags = "latest" ∷ "stable" ∷ "head" ∷ "main" ∷ "master" ∷ "dev" ∷ "next" ∷ "frozen-draft" ∷ []

unfoldable pub among : Bytes → List String → Bool
among text names = any (λ name. bytes_beq (codes name) text) names

unfoldable pub is_floating : Bytes → Bool
unfolding lower float_tags among
is_floating version = among (lower version) float_tags

-- Before and after the last at sign.
abbrev pub split_before : ℕ → Bytes → Option (Bytes × Bytes) → Option (Bytes × Bytes)
split_before c s (some (id, version)) = some (c ∷ id, version)
split_before c s none = if c == 64 then some ([], s) else none

unfoldable pub split_last : Bytes → Option (Bytes × Bytes)
split_last [] = none
split_last (c ∷ s) = split_before c s (split_last s)

abbrev pub registered : Option (List String) → Bytes → Bool
unfolding among
registered none id = true
registered (some ids) id = among id ids

-- `i <= 0 || i == len(ref)-1` is an empty side or no at sign.
unfoldable pub anchored : Option (List String) → Option (Bytes × Bytes) → Bool
unfolding is_floating registered
anchored ids none = false
anchored ids (some (id, version)) =
    not (is_empty id)
    && (not (is_empty version) && (not (is_floating version) && registered ids id))

unfoldable pub anchored_ref : String → Option (List String) → Bool
unfolding split_last anchored
anchored_ref ref ids = anchored ids (split_last (codes ref))

abbrev pub is_lower_or_digit : ℕ → Bool
is_lower_or_digit c = (leb 97 c && leb c 122) || (leb 48 c && leb c 57)

abbrev pub last_is : (ℕ → Bool) → List ℕ → Bool
last_is p [] = false
last_is p (c ∷ []) = p c
last_is p (c ∷ d ∷ s) = last_is p (d ∷ s)

-- `^[a-z0-9]([a-z0-9-]{0,61}[a-z0-9])?$`
unfoldable pub name_matches : Bytes → Bool
name_matches [] = false
name_matches (c ∷ s) =
    is_lower_or_digit c
    && (is_empty s
        || (leb (length s) 62
            && (last_is is_lower_or_digit s && all (λ d. is_lower_or_digit d || d == 45) s)))

-- `^[a-z][a-z0-9_]{1,62}$`
unfoldable pub constraint_matches : Bytes → Bool
constraint_matches [] = false
constraint_matches (c ∷ s) =
    (leb 97 c && leb c 122)
    && (leb 1 (length s) && (leb (length s) 62 && all (λ d. is_lower_or_digit d || d == 95) s))

unfoldable pub is_blank : String → Bool
is_blank text = is_empty (trim_space (codes text))

-- A check that fails is the error, and else the rest decides.
abbrev pub require : Bool → PackError → Option PackError → Option PackError
require ok e rest = if ok then rest else some e

unfoldable pub check_constraints : List String → List String → Option PackError
unfolding constraint_matches
check_constraints seen [] = none
check_constraints seen (c ∷ cs) =
    let rest = check_constraints (c ∷ seen) cs in
    require (constraint_matches (codes c)) (field "spec.constraints_schema")
      (require (not (contains c seen)) (field "spec.constraints_schema") rest)

unfoldable pub is_zero : ℤ → Bool
is_zero (pos n) = n == 0
is_zero (negsuc n) = false

abbrev pub no_names : List String → Bool
no_names [] = true
no_names (n ∷ ns) = false

unfoldable pub is_zero_graph : GraphSpec → Bool
unfolding is_zero
is_zero_graph g =
    no_names g.seed_intents
    && (is_zero g.constraints.max_nodes
        && (no_names g.constraints.allowed_types
            && (is_zero g.constraints.max_planner_replans
                && (is_zero g.constraints.max_attempts_per_node
                    && (is_zero g.timeouts.planner
                        && (is_zero g.timeouts.executor && is_zero g.timeouts.verifier))))))

unfoldable pub check_intents : ℕ → List String → Option PackError → Option PackError
unfolding is_blank
check_intents i [] rest = rest
check_intents i (s ∷ intents) rest =
    let later = check_intents (suc i) intents rest in
    require (not (is_blank s)) (seed_intent i) later

unfoldable pub is_node_type : String → Bool
is_node_type t = contains t ("planner" ∷ "executor" ∷ "verifier" ∷ [])

unfoldable pub validate_graph : GraphSpec → Option PackError
unfolding check_intents is_node_type
validate_graph g = check_intents 0 g.seed_intents (
    require (not (is_negative g.constraints.max_nodes)) (field "spec.graph.constraints.max_nodes") (
      require (all is_node_type g.constraints.allowed_types)
        (field "spec.graph.constraints.allowed_types")
        (require (not (is_negative g.constraints.max_planner_replans))
          (field "spec.graph.constraints.max_planner_replans")
          (require (not (is_negative g.constraints.max_attempts_per_node))
            (field "spec.graph.constraints.max_attempts_per_node")
            (require
              (not (
                is_negative g.timeouts.planner
                || (is_negative g.timeouts.executor || is_negative g.timeouts.verifier)))
              (field "spec.graph.timeouts") none)))))

unfoldable pub check_execution : Spec → Option PackError
unfolding is_zero_graph validate_graph
check_execution s =
    if beq s.execution "" || beq s.execution "session"
    then require (is_zero_graph s.graph) (field "spec.graph") none
    else if beq s.execution "graph"
    then validate_graph s.graph
    else some (field "spec.execution")

-- The checks after those of the constraint keys.
abbrev pub then_check : Option PackError → Option PackError → Option PackError
then_check none rest = rest
then_check (some e) rest = some e

unfoldable pub validate : Refs → Pack → Option PackError
unfolding is_blank anchored_ref name_matches check_constraints check_execution
validate refs p = require (beq p.api_version "codeaudit.pack/v0") (field "apiVersion") (
    require (beq p.kind "WorkloadPack") (field "kind") (
      require (name_matches (codes p.name)) (field "name") (
        require (not (is_blank p.description)) (field "description") (
          require (not (is_blank p.spec.image)) (field "spec.image") (
            require (contains p.spec.dialect refs.dialects) (field "spec.dialect") (
              require (contains p.spec.network_profile refs.profiles) (field "spec.network.profile")
                (require (contains p.spec.brief_renderer refs.renderers)
                  (field "spec.seeds.brief_renderer")
                  (require (contains p.spec.render_target refs.targets)
                    (field "spec.seeds.render_target")
                    (require (anchored_ref p.spec.template_ref refs.template_ids)
                      (field "spec.seeds.template_ref")
                      (require (anchored_ref p.spec.schema_ref refs.schema_refs)
                        (field "spec.results.schema_ref")
                        (require (contains p.spec.parser refs.parsers) (field "spec.results.parser")
                          (require (not (is_blank p.spec.per_turn || is_blank p.spec.task_total))
                            (field "spec.timeouts")
                            (then_check (check_constraints [] p.spec.constraints_schema)
                              (check_execution p.spec))))))))))))))

pub data Loaded : Type 0 where
  packs : List Pack → Loaded
  refused : PackError → Loaded
  unreadable : Loaded
  duplicate : String → Loaded

-- `none` is a file that cannot be read or decoded.
abbrev pub with_pack : Pack → Loaded → Loaded
with_pack p (packs ps) = packs (p ∷ ps)
with_pack p l = l

abbrev pub checked_pack : Option PackError → Pack → List String → Loaded → Loaded
checked_pack (some e) p seen rest = refused e
checked_pack none p seen rest = if contains p.name seen then duplicate p.name else with_pack p rest

-- The YAML files of the directory in order, decoded.
unfoldable pub load_dir : Refs → List String → List (Option Pack) → Loaded
unfolding validate
load_dir refs seen [] = packs []
load_dir refs seen (none ∷ files) = unreadable
load_dir refs seen (some p ∷ files) =
    let rest = load_dir refs (p.name ∷ seen) files in checked_pack (validate refs p) p seen rest
