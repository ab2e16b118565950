-- ===== src/Workflow/Publish.antt =====
-- What publishing does to the rows of the version and of its document.
use mathlib.Core.Option
use mimir_backend.Prelude.{
  ℕ, String, ◌≡◌, refl, ap, ◌∙◌, Bool, true, false, Option, none, some, arith, inl, inr, Bool-cases,
  str_eq, eq_iff, find?, find?-map, find?-sound, if◌then◌else◌,
}
use mimir_backend.Workflow.Enums.{WorkflowStatus, published, status_value}
use mimir_backend.Workflow.Policies.{status_eq}
use mimir_backend.Workflow.Store.{
  Document, Version, Db, get_document, version_row, set_workflow_status, set_published, set_pointer,
}
use mimir_backend.Workflow.Request.{Request}
use mimir_backend.Workflow.Service.{Transition, write_status, write_action}

abbrev if_given : Option String → Option String → Option String
if_given none old = old
if_given (some new) old = some new

-- What an action makes of the row of its version, and of its document.
abbrev pub new_version : ℕ → Request → WorkflowStatus → Version → Version
new_version now r t v =
    if status_eq t published
    then record v {
      workflow_status = some (status_value t);
      status = "published";
      published_by = if_given r.actor_id v.published_by;
      published_at = some now;
    }
    else record v { workflow_status = some (status_value t) }

abbrev pub new_document : ℕ → Request → WorkflowStatus → Document → Document
new_document now r t d =
    if status_eq t published
    then record d {
      status = "published";
      current_published_version_id = some r.version_id;
      updated_at = now;
    }
    else d

set_workflow_status-id : (i s : String) (v : Version) → (set_workflow_status i s v).id ≡ v.id
set_workflow_status-id i s v = ground arith

set_published-id :
    (i : String) (by : Option String) (now : ℕ) (v : Version) → (set_published i by now v).id ≡ v.id
set_published-id i none now v = ground arith
set_published-id i (some a) now v = ground arith

set_pointer-id : (d i : String) (now : ℕ) (x : Document) → (set_pointer d i now x).id ≡ x.id
set_pointer-id d i now x = ground arith

changed : Bool → ℕ → Request → WorkflowStatus → Version → Version
changed true now r t v =
    set_published r.version_id r.actor_id now (set_workflow_status r.version_id (status_value t) v)
changed false now r t v = set_workflow_status r.version_id (status_value t) v

changed-eq :
    (now : ℕ) (r : Request) (t : WorkflowStatus) (j : String) (v : Version)
    → str_eq v.id j ≡ true
    → changed (status_eq t published) now r t v
      ≡ (if str_eq r.version_id j then new_version now r t v else v)
unfolding changed
changed-eq now r t j v h =
    ground (arith, eq_iff v.id j, eq_iff v.id r.version_id, eq_iff r.version_id j)

row-write_status :
    (now : ℕ) (db : Db) (r : Request) (t : WorkflowStatus) (j : String)
    → version_row j (write_status now db r t).versions
      ≡ Option.map (changed (status_eq t published) now r t) (version_row j db.versions)
unfolding write_status changed
row-write_status now db r t j = elim (Bool-cases (status_eq t published)) [
  | inl e ↦ rw e (
      find?-map _ (set_published r.version_id r.actor_id now)
        (λ v. ap (λ (x : String). str_eq x j) (set_published-id r.version_id r.actor_id now v)) _
      ∙ ap (Option.map (set_published r.version_id r.actor_id now)) (
          find?-map _ (set_workflow_status r.version_id (status_value t))
            (λ v.
              ap (λ (x : String). str_eq x j)
                (set_workflow_status-id r.version_id (status_value t) v))
            db.versions)
      ∙ Option.map-map (set_published r.version_id r.actor_id now)
          (set_workflow_status r.version_id (status_value t)) (version_row j db.versions))
  | inr e ↦ rw e (
      find?-map _ (set_workflow_status r.version_id (status_value t))
        (λ v.
          ap (λ (x : String). str_eq x j) (set_workflow_status-id r.version_id (status_value t) v))
        db.versions)
]

map-found :
    (now : ℕ) (r : Request) (t : WorkflowStatus) (j : String) (o : Option Version)
    → ((v : Version) → o ≡ some v → str_eq v.id j ≡ true)
    → Option.map (changed (status_eq t published) now r t) o
      ≡ (if str_eq r.version_id j then Option.map (new_version now r t) o else o)
map-found now r t j none h = ground arith
map-found now r t j (some v) h = ground (arith, changed-eq now r t j v (h v refl))

found_document :
    (now : ℕ) (r : Request) (t : WorkflowStatus) (j : String) (o : Option Document)
    → ((d : Document) → o ≡ some d → str_eq d.id j ≡ true)
    → (if status_eq t published
        then Option.map (set_pointer r.document_id r.version_id now) o
        else o)
      ≡ (if str_eq r.document_id j then Option.map (new_document now r t) o else o)
found_document now r t j none h = ground arith
found_document now r t j (some d) h =
    ground (arith, h d refl, eq_iff d.id j, eq_iff d.id r.document_id, eq_iff r.document_id j)

document-write_status :
    (now : ℕ) (db : Db) (r : Request) (t : WorkflowStatus) (j : String)
    → get_document (write_status now db r t) j ≡ (
        if status_eq t published
        then Option.map (set_pointer r.document_id r.version_id now) (get_document db j)
        else get_document db j)
unfolding write_status get_document
document-write_status now db r t j = elim (Bool-cases (status_eq t published)) [
  | inl e ↦ rw e (
      find?-map _ (set_pointer r.document_id r.version_id now)
        (λ d. ap (λ (x : String). str_eq x j) (set_pointer-id r.document_id r.version_id now d))
        db.documents)
  | inr e ↦ rw e
]

versions-kept :
    (now : ℕ) (db : Db) (r : Request) (t : Transition)
    → ((write_action now db r t).versions ≡ (write_status now db r t.target).versions)
      × ((write_action now db r t).documents ≡ (write_status now db r t.target).documents)
unfolding write_action
versions-kept now db r t = (ground arith, ground arith)

-- What `write_action` leaves in the two tables, row by row: the version of the request gets the new
-- status, and on publishing its publication columns, its document the pointer; every other row
-- stays as it was.
pub write_action-rows :
    (now : ℕ) (db : Db) (r : Request) (t : Transition) (j : String)
    → (version_row j (write_action now db r t).versions ≡ (
        if str_eq r.version_id j
        then Option.map (new_version now r t.target) (version_row j db.versions)
        else version_row j db.versions))
      × (get_document (write_action now db r t) j ≡ (
          if str_eq r.document_id j
          then Option.map (new_document now r t.target) (get_document db j)
          else get_document db j))
unfolding get_document
write_action-rows now db r t j =
    let (same, same') = versions-kept now db r t in
    (
      ap (version_row j) same
          ∙ row-write_status now db r t.target j
          ∙ map-found now r t.target j (version_row j db.versions)
              (λ v e. find?-sound (λ (x : Version). str_eq x.id j) db.versions v e),
      ap (find? (λ (d : Document). str_eq d.id j)) same'
          ∙ document-write_status now db r t.target j
          ∙ found_document now r t.target j (get_document db j)
              (λ d e. find?-sound (λ (x : Document). str_eq x.id j) db.documents d e),
    )
