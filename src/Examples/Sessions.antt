-- ===== src/Examples/Sessions.antt =====
-- A session of 1800 seconds.
use df_code_audit.Prelude.{true, ◌≡◌, ◌↔◌, refl, List, [], ◌∷◌, All}
use df_code_audit.Prelude.Text.{Bytes, codes, has_part, has_prefix}
use df_code_audit.Session.{Manager, new_manager, is_out_of_bounds, validate_sandbox_access}
use df_code_audit.Session.Table.{
  WellFormed, new_manager-WellFormed, creates, serve, serve-WellFormed,
}
use df_code_audit.Session.Access.{Harmless, Inside, validate_sandbox_access_iff}

abbrev one_session : Manager
one_session = serve 1800 10 (creates "s" "task") new_manager

one_session-WellFormed : WellFormed one_session
one_session-WellFormed =
    serve-WellFormed 1800 10 (creates "s" "task") new_manager new_manager-WellFormed

abbrev outside : List Bytes
outside = codes "/tmp/../etc/shadow" ∷ []

outside_accepted : validate_sandbox_access (codes "cat") outside ≡ true
unfolding validate_sandbox_access is_out_of_bounds has_part has_prefix
outside_accepted = refl

validate_sandbox_access_iff_example :
    (validate_sandbox_access (codes "cat") outside ≡ true)
    ↔ (Harmless (codes "cat") × All Inside outside)
validate_sandbox_access_iff_example = validate_sandbox_access_iff (codes "cat") outside
