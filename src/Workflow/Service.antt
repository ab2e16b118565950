-- ===== src/Workflow/Service.antt =====
-- app/services/workflow_service.py: `perform_action` is a chain of checks, then a chain of writes.
use Prim.Native.String.{◌++◌ as ◌+++◌}
use mimir_backend.Prelude.Raises.{Result, ok, err, ◌>>=◌, require, found}
use mimir_backend.Prelude.{
  ℕ, String, Bool, true, false, not, ◌&&◌, ◌||◌, Option, none, some, if◌then◌else◌, truthy,
}
use mimir_backend.Workflow.Enums.{
  WorkflowStatus, published, status_value, parse_status, WorkflowAction, submit_review, approve,
  reject, publish, archive, return_to_draft, action_value, WorkflowRole, admin,
}
use mimir_backend.Workflow.Policies.{
  status_eq, is_transition_allowed, is_role_allowed, get_target_status,
}
use mimir_backend.Workflow.Request.{
  Error, Request, reason_required, document_not_found, version_not_found, invalid_expected_status,
  state_conflict, invalid_transition, permission_denied, resolve_role,
  resolve_current_workflow_status,
}
use mimir_backend.Workflow.Store.{
  Version, ReviewAction, WorkflowHistory, ChangeLog, AuditEvent, Db, get_document, get_version,
  get_workflow_status, update_workflow_status, update_status, update_document, create_review_action,
  create_workflow_history, create_change_log, emit,
}

abbrev is_reject : WorkflowAction → Bool
is_reject reject = true
is_reject _ = false

-- step 3, the optimistic lock
unfoldable pub check_expected : Option String → WorkflowStatus → Result Error (Unit {0})
check_expected none current = ok tt
check_expected (some raw) current = do
  expected ← found (parse_status raw) (invalid_expected_status raw)
  require (status_eq current expected) (state_conflict expected current) (ok tt)

-- What the checks find out, which the writes use.
pub record Transition : Type 0 where
  pub version : Version
  pub current : WorkflowStatus
  pub target : WorkflowStatus
  pub role : WorkflowRole

-- steps 3 to 5, on the status that was read
unfoldable pub check_transition : Request → Version → WorkflowStatus → Result Error Transition
check_transition r version current = do
  checked ← check_expected r.expected_current_status current
  let target = get_target_status r.action
  let role = resolve_role r.actor_role
  require (is_transition_allowed current target) (invalid_transition current target) (
      require (is_role_allowed role current target) (permission_denied role r.action)
        (ok (record { version = version; current = current; target = target; role = role })))

-- steps 0 to 5
unfoldable pub check_action : Db → Request → Result Error Transition
check_action db r = require (not (is_reject r.action && not (truthy r.reason))) reason_required (do
  document ← found (get_document db r.document_id) (document_not_found r.document_id)
  version ←
      found (get_version db r.document_id r.version_id)
        (version_not_found r.document_id r.version_id)
  check_transition r version
      (resolve_current_workflow_status version.status (get_workflow_status db r.version_id)))

abbrev pub is_admin : WorkflowRole → Bool
is_admin admin = true
is_admin _ = false

-- step 6: the status, and on publishing the version's and the document's own columns
unfoldable pub write_status : ℕ → Db → Request → WorkflowStatus → Db
unfolding update_workflow_status update_status update_document
write_status now db r target =
    let db = update_workflow_status db r.version_id (status_value target) in
    if status_eq target published
    then update_document (update_status db r.version_id r.actor_id now) r.document_id r.version_id
        now
    else db

-- step 7
unfoldable pub review_row : Request → Transition → ReviewAction
review_row r t = record {
  document_id = r.document_id;
  version_id = r.version_id;
  action_type = action_value r.action;
  from_status = status_value t.current;
  to_status = status_value t.target;
  actor_id = r.actor_id;
  actor_role = r.actor_role;
  comment = r.comment;
  reason = r.reason;
  is_admin_override = is_admin t.role;
}

-- step 8
unfoldable pub history_row : Request → Transition → WorkflowHistory
history_row r t = record {
  document_id = r.document_id;
  version_id = r.version_id;
  from_status = status_value t.current;
  to_status = status_value t.target;
  action = action_value r.action;
  actor_id = r.actor_id;
  actor_role = r.actor_role;
  comment = r.comment;
  reason = r.reason;
}

-- step 9: `reason or comment`
unfoldable pub change_row : Request → Transition → ChangeLog
change_row r t = record {
  document_id = r.document_id;
  version_id = r.version_id;
  change_type = "workflow_transition." +++ action_value r.action;
  actor_id = r.actor_id;
  actor_role = r.actor_role;
  reason = if truthy r.reason then r.reason else r.comment;
  from_status = status_value t.current;
  to_status = status_value t.target;
  action = action_value r.action;
  is_admin_override = is_admin t.role;
}

-- step 10
unfoldable pub audit_row : Request → Transition → AuditEvent
audit_row r t = record {
  event_type = "document.workflow." +++ action_value r.action;
  action = "workflow." +++ action_value r.action;
  actor_id = r.actor_id;
  actor_role = r.actor_role;
  resource_id = r.version_id;
  request_id = r.request_id;
  trace_id = r.trace_id;
  document_id = r.document_id;
  version_number = t.version.version_number;
  is_admin_override = is_admin t.role;
  previous_state = status_value t.current;
  new_state = status_value t.target;
}

unfoldable pub write_change_log : Db → Request → Transition → Db
unfolding create_change_log
write_change_log db r t =
    if truthy r.reason || truthy r.comment then create_change_log db (change_row r t) else db

-- steps 6 to 10
unfoldable pub write_action : ℕ → Db → Request → Transition → Db
unfolding create_review_action create_workflow_history write_change_log emit
write_action now db r t =
    let db1 = write_status now db r t.target in
    let db2 = create_review_action db1 (review_row r t) in
    let db3 = create_workflow_history db2 (history_row r t) in
    let db4 = write_change_log db3 r t in emit db4 (audit_row r t)

-- The dictionary that a successful action returns.
pub record Outcome : Type 0 where
  pub document_id : String
  pub version_id : String
  pub version_number : ℕ
  pub previous_status : String
  pub current_status : String
  pub action : String
  pub acted_by : Option String
  pub acted_at : ℕ
  pub comment : Option String
  pub reason : Option String

outcome : ℕ → Request → Transition → Outcome
outcome acted_at r t = record {
  document_id = r.document_id;
  version_id = r.version_id;
  version_number = t.version.version_number;
  previous_status = status_value t.current;
  current_status = status_value t.target;
  action = action_value r.action;
  acted_by = r.actor_id;
  acted_at = acted_at;
  comment = r.comment;
  reason = r.reason;
}

-- Past the checks come the writes; an exception leaves the tables as they were.
unfoldable pub finish_action :
    ℕ → ℕ → Db → Request → Result Error Transition → Result Error Outcome × Db
unfolding outcome
finish_action now acted_at db r (ok t) = (ok (outcome acted_at r t), write_action now db r t)
finish_action now acted_at db r (err e) = (err e, db)

-- The clock is read twice, for the publishing time and for `acted_at`.
unfoldable pub perform_action : ℕ → ℕ → Db → Request → Result Error Outcome × Db
perform_action now acted_at db r = finish_action now acted_at db r (check_action db r)

-- `submit_review`, `approve`, ...: the six methods set the action and pass the rest on
unfoldable pub submit_review_of : ℕ → ℕ → Db → Request → Result Error Outcome × Db
submit_review_of now acted_at db r =
    perform_action now acted_at db (record r { action = submit_review })

unfoldable pub approve_of : ℕ → ℕ → Db → Request → Result Error Outcome × Db
approve_of now acted_at db r = perform_action now acted_at db (record r { action = approve })

unfoldable pub reject_of : ℕ → ℕ → Db → Request → Result Error Outcome × Db
reject_of now acted_at db r = perform_action now acted_at db (record r { action = reject })

unfoldable pub publish_of : ℕ → ℕ → Db → Request → Result Error Outcome × Db
publish_of now acted_at db r = perform_action now acted_at db (record r { action = publish })

unfoldable pub archive_of : ℕ → ℕ → Db → Request → Result Error Outcome × Db
archive_of now acted_at db r = perform_action now acted_at db (record r { action = archive })

unfoldable pub return_to_draft_of : ℕ → ℕ → Db → Request → Result Error Outcome × Db
return_to_draft_of now acted_at db r =
    perform_action now acted_at db (record r { action = return_to_draft })
