-- ===== src/Authz.antt =====
-- engine/services/gateway-service/internal/handler/authz.go: who may operate, and who may write the
-- verdict of a finding. The lookups in the other services are parameters; logs are left out.
pub mod Batch
use df_code_audit.Prelude.{
  String, Bool, true, false, ◌||◌, Option, none, some, List, [], ◌∷◌, if◌then◌else◌,
}
use df_code_audit.Prelude.Eq.{beq, String_eq, contains}

-- The caller's id and role in the request's context, "" without one.
pub record Caller : Type 0 where
  pub user : String
  pub role : String

pub data Lookup (A : Type 0) : Type 0 where
  found : A → Lookup A
  not_found lookup_failed : Lookup A

-- The response of a refusal: 403 or 404.
pub data Denial : Type 0 where
  forbidden missing : Denial

unfoldable pub is_admin : Caller → Bool
is_admin c = beq c.role "ROLE_ADMIN"

unfoldable pub is_operator : Caller → Bool
is_operator c = beq c.role "ROLE_DEVELOPER" || beq c.role "ROLE_ADMIN"

unfoldable pub require_operator : Caller → Option Denial
unfolding is_operator
require_operator c = if is_operator c then none else some forbidden

unfoldable pub owner_only : Caller → Lookup String → Option Denial
owner_only c not_found = some missing
owner_only c lookup_failed = some forbidden
owner_only c (found created_by) = if beq created_by c.user then none else some forbidden

-- `get_task` gives the creator of a task, `get_finding` and `get_report` the task of a finding and of a
-- report. No denial is access.
module _ (get_task get_finding get_report : String → Lookup String) where
  unfoldable pub can_access_task : Caller → String → Option Denial
  unfolding is_admin owner_only
  can_access_task c task_id =
      if is_admin c
      then none
      else if beq c.user ""
      then some forbidden
      else owner_only c (get_task task_id)

  unfoldable pub via_task : Caller → Lookup String → Option Denial
  unfolding can_access_task
  via_task c not_found = some missing
  via_task c lookup_failed = some forbidden
  via_task c (found task_id) = can_access_task c task_id

  unfoldable pub can_access_task_via_finding : Caller → String → Option Denial
  unfolding via_task
  can_access_task_via_finding c finding_id =
      if is_admin c then none else via_task c (get_finding finding_id)

  unfoldable pub can_access_task_via_report : Caller → String → Option Denial
  unfolding via_task
  can_access_task_via_report c report_id =
      if is_admin c then none else via_task c (get_report report_id)

  -- A denial, or what follows.
  abbrev pub or_rest : Option Denial → Option Denial → Option Denial
  or_rest (some d) rest = some d
  or_rest none rest = rest

  unfoldable pub check_ids : Caller → List String → List String → Option Denial
  unfolding can_access_task_via_finding
  check_ids c seen [] = none
  check_ids c seen (id ∷ ids) =
      let skipped = check_ids c seen ids in
      let rest = check_ids c (id ∷ seen) ids in
      if beq id "" || contains id seen
      then skipped
      else or_rest (can_access_task_via_finding c id) rest

  unfoldable pub can_batch_verdict : Caller → List String → Option Denial
  unfolding check_ids
  can_batch_verdict c ids = if is_admin c then none else check_ids c [] ids
