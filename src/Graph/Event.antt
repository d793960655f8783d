-- ===== src/Graph/Event.antt =====
-- graph_events.go: the events of graph.log, their data as parsed JSON, and the emitter.
use df_code_audit.Prelude.{ℕ, suc, String, Option, none, some, List, [], ◌∷◌, ◌++◌}
use df_code_audit.Prelude.Eq.{String_eq}
use df_code_audit.Prelude.Dict.{Dict, lookup}

-- The type of an event, by the constant that names it.
pub data EventType : Type 0 where
  node_claimed node_released node_lease_expired node_reopened human_message : EventType
  node_declared node_started node_result plan_triggered paused node_seeded converged : EventType
  unknown_type : String → EventType

-- A JSON value. Of a number the code takes the integer part, of an array the strings among its
-- elements; a negative number does not occur where the code reads one.
pub data Value : Type 0 where
  text : String → Value
  number : ℕ → Value
  array : List (Option String) → Value
  other : Value

abbrev pub Data : Type 0
Data = Dict String Value

-- `seq` of an envelope is an int: every value that is not positive reads as 0.
pub record Envelope : Type 0 where
  pub kind : EventType
  pub seq : ℕ
  pub event_data : Data

-- `s, ok := v.(string)`, on a value that may be missing.
abbrev pub text_of : Option Value → Option String
text_of (some (text s)) = some s
text_of _ = none

-- The string of such a value, "" without one.
abbrev pub or_blank : Option String → String
or_blank none = ""
or_blank (some s) = s

unfoldable pub text_field : String → Data → String
unfolding lookup
text_field key fields = or_blank (text_of (lookup key fields))

abbrev pub strings_among : List (Option String) → List String
strings_among [] = []
strings_among (none ∷ xs) = strings_among xs
strings_among (some s ∷ xs) = s ∷ strings_among xs

abbrev pub texts_of : Option Value → List String
texts_of (some (array xs)) = strings_among xs
texts_of _ = []

abbrev pub number_of : Option Value → Option ℕ
number_of (some (number n)) = some n
number_of _ = none

-- The emitter: the last seq that it gave, and the lines that it wrote, oldest first. Marshalling of
-- the maps that the engine builds does not fail.
pub record Emitter : Type 0 where
  pub seq : ℕ
  pub out : List Envelope

unfoldable pub new_emitter : ℕ → Emitter
new_emitter start = record { seq = start; out = [] }

unfoldable pub emit : EventType → Data → Emitter → Emitter
emit kind fields e = record {
  seq = suc e.seq;
  out = e.out ++ record { kind = kind; seq = suc e.seq; event_data = fields } ∷ [];
}
