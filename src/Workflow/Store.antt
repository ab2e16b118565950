-- ===== src/Workflow/Store.antt =====
-- The tables that a workflow action reads and writes, and the repository methods on them:
-- app/repositories/workflow_repository.py, and what the action uses of documents_repository.py and
-- versions_repository.py. A table is the list of its rows, the oldest first. Times are numbers.
use mimir_backend.Prelude.{
  ℕ, String, Bool, ◌&&◌, Option, none, some, List, [], ◌∷◌, ◌++◌, map, find?, str_eq, if◌then◌else◌,
}

pub record Document : Type 0 where
  pub id : String
  pub status : String
  pub current_published_version_id : Option String
  pub updated_at : ℕ

pub record Version : Type 0 where
  pub id : String
  pub document_id : String
  pub version_number : ℕ
  pub status : String
  pub workflow_status : Option String
  pub published_by : Option String
  pub published_at : Option ℕ

-- A row of `review_actions`. Its metadata is the one flag that is ever stored there.
pub record ReviewAction : Type 0 where
  pub document_id : String
  pub version_id : String
  pub action_type : String
  pub from_status : String
  pub to_status : String
  pub actor_id : Option String
  pub actor_role : Option String
  pub comment : Option String
  pub reason : Option String
  pub is_admin_override : Bool

pub record WorkflowHistory : Type 0 where
  pub document_id : String
  pub version_id : String
  pub from_status : String
  pub to_status : String
  pub action : String
  pub actor_id : Option String
  pub actor_role : Option String
  pub comment : Option String
  pub reason : Option String

pub record ChangeLog : Type 0 where
  pub document_id : String
  pub version_id : String
  pub change_type : String
  pub actor_id : Option String
  pub actor_role : Option String
  pub reason : Option String
  pub from_status : String
  pub to_status : String
  pub action : String
  pub is_admin_override : Bool

-- What one call of the audit emitter is given.
pub record AuditEvent : Type 0 where
  pub event_type : String
  pub action : String
  pub actor_id : Option String
  pub actor_role : Option String
  pub resource_id : String
  pub request_id : Option String
  pub trace_id : Option String
  pub document_id : String
  pub version_number : ℕ
  pub is_admin_override : Bool
  pub previous_state : String
  pub new_state : String

pub record Db : Type 0 where
  pub documents : List Document
  pub versions : List Version
  pub review_actions : List ReviewAction
  pub workflow_history : List WorkflowHistory
  pub change_logs : List ChangeLog
  pub audit_events : List AuditEvent

-- documents_repository.get_by_id with no viewer filter
unfoldable pub get_document : Db → String → Option Document
get_document db id = find? (λ (d : Document). str_eq d.id id) db.documents

-- versions_repository.get_by_document_and_version_id
unfoldable pub get_version : Db → String → String → Option Version
get_version db document_id version_id =
    find? (λ (v : Version). str_eq v.id version_id && str_eq v.document_id document_id) db.versions

abbrev pub status_column : Option Version → Option String
status_column none = none
status_column (some v) = v.workflow_status

abbrev pub version_row : String → List Version → Option Version
version_row version_id = find? (λ (v : Version). str_eq v.id version_id)

-- workflow_repository.get_workflow_status
unfoldable pub get_workflow_status : Db → String → Option String
get_workflow_status db version_id = status_column (version_row version_id db.versions)

abbrev pub set_workflow_status : String → String → Version → Version
set_workflow_status version_id new_status v =
    if str_eq v.id version_id then record v { workflow_status = some new_status } else v

-- workflow_repository.update_workflow_status
unfoldable pub update_workflow_status : Db → String → String → Db
update_workflow_status db version_id new_status = record db {
  versions = map (set_workflow_status version_id new_status) db.versions;
}

-- `published_by = %s` is among the SET clauses only if an actor is given
abbrev pub set_published : String → Option String → ℕ → Version → Version
set_published version_id none now v =
    if str_eq v.id version_id then record v { status = "published"; published_at = some now } else v
set_published version_id (some actor) now v =
    if str_eq v.id version_id
    then record v { status = "published"; published_by = some actor; published_at = some now }
    else v

-- versions_repository.update_status, as the publishing action calls it
unfoldable pub update_status : Db → String → Option String → ℕ → Db
update_status db version_id published_by now = record db {
  versions = map (set_published version_id published_by now) db.versions;
}

abbrev pub set_pointer : String → String → ℕ → Document → Document
set_pointer document_id version_id now d =
    if str_eq d.id document_id
    then record d {
      status = "published";
      current_published_version_id = some version_id;
      updated_at = now;
    }
    else d

-- documents_repository.update_version_pointers and the UPDATE of `documents` after it
unfoldable pub update_document : Db → String → String → ℕ → Db
update_document db document_id version_id now = record db {
  documents = map (set_pointer document_id version_id now) db.documents;
}

-- workflow_repository.create_review_action
unfoldable pub create_review_action : Db → ReviewAction → Db
create_review_action db row = record db { review_actions = db.review_actions ++ row ∷ [] }

-- workflow_repository.create_workflow_history
unfoldable pub create_workflow_history : Db → WorkflowHistory → Db
create_workflow_history db row = record db { workflow_history = db.workflow_history ++ row ∷ [] }

-- workflow_repository.create_change_log
unfoldable pub create_change_log : Db → ChangeLog → Db
create_change_log db row = record db { change_logs = db.change_logs ++ row ∷ [] }

-- audit_emitter.emit, as the list of the calls
unfoldable pub emit : Db → AuditEvent → Db
emit db event = record db { audit_events = db.audit_events ++ event ∷ [] }
