-- ===== src/Graph/Apply/WellFormed.antt =====
-- The table of nodes and the order of their declaration stay in step, whatever event is applied.
use df_code_audit.Prelude.{ℕ, String, Option}
use df_code_audit.Graph.Event.{Envelope}
use df_code_audit.Graph.State.{GraphState}
use df_code_audit.Graph.Apply.{apply}
use df_code_audit.Graph.Apply.Change.{apply-Change}
use df_code_audit.Graph.Apply.Table.{WellFormed, Step-Table}

-- Whatever event is applied, accepted or refused, a state stays well formed: its order names each key
-- of the table once, and each node stands under its own id.
pub apply-WellFormed :
    (parse_time parse_time_nano : String → Option ℕ) (now : ℕ) (env : Envelope) (st : GraphState)
    → WellFormed st
    → WellFormed (apply parse_time parse_time_nano now env st).0
apply-WellFormed parse_time parse_time_nano now env st w =
    Step-Table (apply-Change parse_time parse_time_nano now env st) w
