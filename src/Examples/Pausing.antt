-- ===== src/Examples/Pausing.antt =====
-- A task that is paused and goes on.
use df_code_audit.Prelude.{true, ◌≡◌, refl, []}
use df_code_audit.Prelude.Text.{codes, has_suffix}
use df_code_audit.Pause.{PauseGate, Pauses, new_pause_gate, gate_key}

repairs_share : gate_key (codes "gw-1-fix") ≡ codes "gw-1"
unfolding gate_key has_suffix
repairs_share = refl

abbrev held_gate : PauseGate
held_gate = record { paused = true; wake = 1; made = 2; closed = [] }

abbrev no_gates : Pauses
no_gates = record { gates = []; heap = λ r. new_pause_gate; next = 0 }
