-- ===== src/Workflow/Tests.antt =====
-- The workflow theorems at concrete documents and requests.
use mimir_backend.Prelude.Raises.{ok}
use mimir_backend.Prelude.{◌↔◌, ◌≡◌, refl, false, some, none, [], ◌∷◌, List, ℕ, String}
use mimir_backend.Workflow.Enums.{
  draft, in_review, approved, published, status_value, parse_status, submit_review, approve,
  publish, author, approver, WorkflowAction,
}
use mimir_backend.Workflow.Policies.{
  is_transition_allowed, is_role_allowed, get_target_status, status_eq,
}
use mimir_backend.Workflow.Store.{
  WorkflowHistory, Document, Version, Db, get_document, get_version, get_workflow_status,
  version_row,
}
use mimir_backend.Workflow.Request.{Request, resolve_role, resolve_current_workflow_status}
use mimir_backend.Workflow.Service.{
  Transition, check_action, check_transition, check_expected, perform_action, finish_action,
  write_action, write_status, history_row,
}
use mimir_backend.Workflow.Checks.{Checked, check_action-ok_iff}
use mimir_backend.Workflow.Effects.{performed, perform_action-Logged, Logged}
use mimir_backend.Workflow.Publish.{write_action-rows, new_version}
use mimir_backend.Workflow.Trail.{IsTrail, follow, perform_all, perform_all-IsTrail}
use mimir_backend.Workflow.Approval.{expected_status-once}

abbrev manual : Document
manual = record {
  id = "doc";
  status = "draft";
  current_published_version_id = none;
  updated_at = 3;
}

abbrev version_with : String → Version
version_with status = record {
  id = "v1";
  document_id = "doc";
  version_number = 1;
  status = "draft";
  workflow_status = some status;
  published_by = none;
  published_at = none;
}

abbrev db_with : String → Db
db_with status = record {
  documents = manual ∷ [];
  versions = version_with status ∷ [];
  review_actions = [];
  workflow_history = [];
  change_logs = [];
  audit_events = [];
}

abbrev request : WorkflowAction → String → Request
request action role = record {
  document_id = "doc";
  version_id = "v1";
  action = action;
  actor_id = some "kim";
  actor_role = some role;
  comment = none;
  reason = none;
  expected_current_status = none;
  request_id = none;
  trace_id = none;
}

abbrev expecting : String → Request
expecting role = record (request approve role) { expected_current_status = some "in_review" }

abbrev whole_way : List (ℕ × ℕ × Request)
whole_way =
    (10, 11, request submit_review "author")
    ∷ (12, 13, request approve "approver")
    ∷ (14, 15, request publish "approver")
    ∷ []

abbrev submitted : Transition
submitted = record {
  version = version_with "draft";
  current = draft;
  target = in_review;
  role = author;
}

check_action-ok_iff_example :
    (check_action (db_with "draft") (request submit_review "author") ≡ ok submitted)
    ↔ Checked (db_with "draft") (request submit_review "author") submitted
check_action-ok_iff_example =
    check_action-ok_iff (db_with "draft") (request submit_review "author") submitted

perform_action-Logged_example :
    let (res, db') = perform_action 10 11 (db_with "draft") (request submit_review "author") in
    Logged (db_with "draft") db' (performed res) false
perform_action-Logged_example =
    perform_action-Logged 10 11 (db_with "draft") (request submit_review "author")

abbrev released : Transition
released = record {
  version = version_with "approved";
  current = approved;
  target = published;
  role = approver;
}

write_action-rows_example :
    let db' = write_action 14 (db_with "approved") (request publish "approver") released in
    (version_row "v1" db'.versions
      ≡ some (new_version 14 (request publish "approver") published (version_with "approved")))
    × (get_document db' "v1" ≡ none)
unfolding get_document
write_action-rows_example =
    write_action-rows 14 (db_with "approved") (request publish "approver") released "v1"

start-IsTrail : IsTrail "v1" draft (db_with "draft")
unfolding get_workflow_status status_value follow
start-IsTrail = record { now = draft; stored = refl; led = refl }

perform_all-IsTrail_example : IsTrail "v1" draft (perform_all (db_with "draft") whole_way)
perform_all-IsTrail_example =
    perform_all-IsTrail "v1" draft (db_with "draft") whole_way start-IsTrail

-- Another version has been submitted before.
abbrev other_submitted : WorkflowHistory
other_submitted =
    history_row (record (request submit_review "author") { version_id = "v0" }) submitted

abbrev later_db : Db
later_db = record (db_with "draft") { workflow_history = other_submitted ∷ [] }

approves_once : performed (perform_action 12 13 (db_with "in_review") (expecting "approver")).0 ≡ 1
unfolding perform_action finish_action check_action check_transition check_expected get_document
    get_version get_workflow_status status_value parse_status resolve_current_workflow_status
    resolve_role is_transition_allowed is_role_allowed get_target_status status_eq write_action
    write_status
approves_once = refl

expected_status-once_example :
    performed
      (perform_action 14 15
        (perform_action 12 13 (db_with "in_review") (expecting "approver")).1
        (expecting "admin")).0
    ≡ 0
expected_status-once_example =
    expected_status-once 12 13 14 15 (db_with "in_review") (expecting "approver")
      (expecting "admin") "in_review" refl refl refl approves_once
