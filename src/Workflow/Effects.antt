-- ===== src/Workflow/Effects.antt =====
-- What the writes of an action do to the tables.
use mimir_backend.Prelude.Raises.{Result, ok, err}
use mimir_backend.Prelude.{
  ℕ, ◌+◌, String, ◌≡◌, refl, ap, ◌∙◌, Bool, false, ◌&&◌, ◌||◌, Option, none, some, List, [], ◌∷◌,
  ◌++◌, map, arith, inl, inr, Bool-cases, truthy, str_eq, eq_iff, eq_refl, if◌then◌else◌, length,
  length-snoc, find?,
}
use mimir_backend.Workflow.Enums.{WorkflowStatus, published, status_value}
use mimir_backend.Workflow.Policies.{status_eq}
use mimir_backend.Workflow.Store.{
  Version, Db, get_version, get_workflow_status, version_row, status_column, set_workflow_status,
  set_published,
}
use mimir_backend.Workflow.Request.{Error, Request}
use mimir_backend.Workflow.Service.{
  Transition, Outcome, check_action, write_status, write_action, history_row, review_row, audit_row,
  change_row, finish_action, perform_action,
}

-- A row that was found still is, changed, after a change that keeps the key of every row.
abbrev written : String → Option Version → Option String
written s none = none
written s (some v) = some s

column-set_workflow_status :
    (i s j : String) (vs : List Version)
    → status_column (version_row j (map (set_workflow_status i s) vs))
      ≡ (if str_eq i j then written s (version_row j vs) else status_column (version_row j vs))
column-set_workflow_status i s j [] = ground arith
column-set_workflow_status i s j (v ∷ vs) =
    ground (arith, eq_iff i j, eq_iff v.id i, eq_iff v.id j, column-set_workflow_status i s j vs)

column-set_published :
    (i : String) (by : Option String) (now : ℕ) (j : String) (vs : List Version)
    → status_column (version_row j (map (set_published i by now) vs))
      ≡ status_column (version_row j vs)
column-set_published i by now j [] = refl
column-set_published i none now j (v ∷ vs) =
    ground (arith, eq_iff v.id i, eq_iff v.id j, column-set_published i none now j vs)
column-set_published i (some a) now j (v ∷ vs) =
    ground (arith, eq_iff v.id i, eq_iff v.id j, column-set_published i (some a) now j vs)

status-write_status :
    (now : ℕ) (db : Db) (r : Request) (t : WorkflowStatus) (j : String)
    → get_workflow_status (write_status now db r t) j ≡ (
        if str_eq r.version_id j
        then written (status_value t) (version_row j db.versions)
        else get_workflow_status db j)
unfolding write_status get_workflow_status
status-write_status now db r t j = elim (Bool-cases (status_eq t published)) [
  | inl e ↦ rw e (
      column-set_published r.version_id r.actor_id now j _
      ∙ column-set_workflow_status r.version_id (status_value t) j db.versions)
  | inr e ↦ rw e (column-set_workflow_status r.version_id (status_value t) j db.versions)
]

versions-write_action :
    (now : ℕ) (db : Db) (r : Request) (t : Transition)
    → (write_action now db r t).versions ≡ (write_status now db r t.target).versions
unfolding write_action
versions-write_action now db r t = ground arith

-- A version that is found by its id and document is found by its id.
row-get_version :
    (d i : String) (vs : List Version) {v : Version}
    → find? (λ (v : Version). str_eq v.id i && str_eq v.document_id d) vs ≡ some v
    → (w : Version) × (version_row i vs ≡ some w)
row-get_version d i [] h = cc
row-get_version d i (x ∷ vs) {v} h = elim (Bool-cases (str_eq x.id i)) [
  | inl e ↦ (x, rw e)
  | inr e ↦ let (w, k) = row-get_version d i vs {v = v} (ground arith) in (w, rw e k)
]

status-write_action_at :
    (now : ℕ) (db : Db) (r : Request) (t : Transition) (j : String)
    → get_workflow_status (write_action now db r t) j
      ≡ get_workflow_status (write_status now db r t.target) j
unfolding get_workflow_status
status-write_action_at now db r t j =
    ap (λ (vs : List Version). status_column (version_row j vs)) (versions-write_action now db r t)

-- After an action its version has the target status.
pub status-write_action :
    (now : ℕ) (db : Db) (r : Request) (t : Transition)
    → get_version db r.document_id r.version_id ≡ some t.version
    → get_workflow_status (write_action now db r t) r.version_id ≡ some (status_value t.target)
unfolding get_version
status-write_action now db r t h =
    let (w, k) = row-get_version r.document_id r.version_id db.versions h in
    status-write_action_at now db r t r.version_id
    ∙ status-write_status now db r t.target r.version_id
    ∙ simp (eq_refl, k)

-- It leaves the status of the other versions.
pub status-write_action_ne :
    (now : ℕ) (db : Db) (r : Request) (t : Transition) (j : String)
    → str_eq r.version_id j ≡ false
    → get_workflow_status (write_action now db r t) j ≡ get_workflow_status db j
status-write_action_ne now db r t j h =
    status-write_action_at now db r t j ∙ status-write_status now db r t.target j ∙ rw h

module _ (now : ℕ) (db : Db) (r : Request) (t : Transition) where
  reviews-write_action :
      (write_action now db r t).review_actions ≡ db.review_actions ++ review_row r t ∷ []
  unfolding write_action write_status
  reviews-write_action = ground arith

  pub history-write_action :
      (write_action now db r t).workflow_history ≡ db.workflow_history ++ history_row r t ∷ []
  unfolding write_action write_status
  history-write_action = ground arith

  audits-write_action :
      (write_action now db r t).audit_events ≡ db.audit_events ++ audit_row r t ∷ []
  unfolding write_action write_status
  audits-write_action = ground arith

  changes-write_action : (write_action now db r t).change_logs ≡ (
      if truthy r.reason || truthy r.comment
      then db.change_logs ++ change_row r t ∷ []
      else db.change_logs)
  unfolding write_action write_status
  changes-write_action = ground arith

  logged-change :
      length (write_action now db r t).change_logs
      ≡ length db.change_logs + (if truthy r.reason || truthy r.comment then 1 else 0)
  logged-change = elim (Bool-cases (truthy r.reason || truthy r.comment)) [
    | inl e ↦ ap length changes-write_action ∙ rw e (length-snoc db.change_logs (change_row r t))
    | inr e ↦ ap length changes-write_action ∙ rw e (omega arith)
  ]

-- 1 for an action that is done, 0 for one that is refused.
abbrev pub performed : Result Error Outcome → ℕ
performed (ok out) = 1
performed (err e) = 0

-- How many rows each log has gained between two states of the tables.
pub record Logged (db db' : Db) (done : ℕ) (noted : Bool) : Type 0 where
  pub reviews : length db'.review_actions ≡ length db.review_actions + done
  pub entries : length db'.workflow_history ≡ length db.workflow_history + done
  pub events : length db'.audit_events ≡ length db.audit_events + done
  pub changes : length db'.change_logs ≡ length db.change_logs + (if noted then done else 0)

finish_action-Logged :
    (now acted_at : ℕ) (db : Db) (r : Request) (c : Result Error Transition)
    → let (res, db') = finish_action now acted_at db r c in
      Logged db db' (performed res) (truthy r.reason || truthy r.comment)
unfolding finish_action
finish_action-Logged now acted_at db r (ok t) = record {
  reviews = ap length (reviews-write_action now db r t) ∙ length-snoc db.review_actions _;
  entries = ap length (history-write_action now db r t) ∙ length-snoc db.workflow_history _;
  events = ap length (audits-write_action now db r t) ∙ length-snoc db.audit_events _;
  changes = logged-change now db r t;
}
finish_action-Logged now acted_at db r (err e) = ground arith

-- A performed action adds one review, one history entry and one audit event, and one change log if
-- it has a reason or a comment that is not empty. A refused one adds nothing.
pub perform_action-Logged :
    (now acted_at : ℕ) (db : Db) (r : Request)
    → let (res, db') = perform_action now acted_at db r in
      Logged db db' (performed res) (truthy r.reason || truthy r.comment)
unfolding perform_action
perform_action-Logged now acted_at db r = finish_action-Logged now acted_at db r (check_action db r)
