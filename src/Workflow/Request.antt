-- ===== src/Workflow/Request.antt =====
-- app/services/workflow_service.py: the arguments and errors of an action, and how the role and the
-- current status are read from stored texts.
use mimir_backend.Prelude.{
  ℕ, ◌+◌, String, Bool, ◌&&◌, ◌||◌, Option, none, some, map, str_eq, leb, if◌then◌else◌, codes,
  text_eq,
}
use mimir_backend.Workflow.Enums.{
  WorkflowStatus, draft, parse_status, WorkflowAction, WorkflowRole, author, reviewer, approver,
  admin,
}

-- The arguments of an action.
pub record Request : Type 0 where
  pub document_id : String
  pub version_id : String
  pub action : WorkflowAction
  pub actor_id : Option String
  pub actor_role : Option String
  pub comment : Option String
  pub reason : Option String
  pub expected_current_status : Option String
  pub request_id : Option String
  pub trace_id : Option String

-- The exceptions that the service raises.
pub data Error : Type 0 where
  reason_required : Error
  document_not_found : String → Error
  version_not_found : String → String → Error
  invalid_expected_status : String → Error
  state_conflict : WorkflowStatus → WorkflowStatus → Error
  invalid_transition : WorkflowStatus → WorkflowStatus → Error
  permission_denied : WorkflowRole → WorkflowAction → Error

-- `str.lower` of one character, exact for the texts it is compared with: no other character has
-- one of their letters as its lower case.
lower : ℕ → ℕ
lower c = if leb b'A' c && leb c b'Z' then c + 32 else c

lower_eq : String → String → Bool
unfolding lower
lower_eq s t = text_eq (map lower (codes s)) (codes t)

-- `_ROLE_MAP.get(role_str.lower(), AUTHOR)`
lookup_role : String → WorkflowRole
lookup_role s =
    if lower_eq s "author" || lower_eq s "viewer"
    then author
    else if lower_eq s "reviewer"
    then reviewer
    else if lower_eq s "approver"
    then approver
    else if lower_eq s "admin" || lower_eq s "org_admin" || lower_eq s "super_admin"
    then admin
    else author

unfoldable pub resolve_role : Option String → WorkflowRole
unfolding lookup_role lower_eq
resolve_role none = author
resolve_role (some s) = lookup_role s

-- an unknown status is read as a draft
abbrev or_draft : Option WorkflowStatus → WorkflowStatus
or_draft none = draft
or_draft (some s) = s

abbrev or_else : Option String → String → String
or_else none d = d
or_else (some s) d = if str_eq s "" then d else s

unfoldable pub resolve_current_workflow_status : String → Option String → WorkflowStatus
resolve_current_workflow_status version_status workflow_status =
    or_draft (parse_status (or_else workflow_status version_status))
