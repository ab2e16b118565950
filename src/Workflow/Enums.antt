-- ===== src/Workflow/Enums.antt =====
-- app/domain/workflow/enums.py: the statuses, actions and roles, with the texts that are stored.
use mimir_backend.Prelude.{String, ◌≡◌, refl, Option, some, List, [], ◌∷◌, find?, str_eq}

pub data WorkflowStatus : Type 0 where
  draft in_review approved published rejected archived : WorkflowStatus
  proposed withdrawn superseded discarded : WorkflowStatus

pub data WorkflowAction : Type 0 where
  submit_review approve reject publish archive return_to_draft : WorkflowAction

pub data WorkflowRole : Type 0 where
  author reviewer approver admin : WorkflowRole

-- `status.value`
unfoldable pub status_value : WorkflowStatus → String
status_value draft = "draft"
status_value in_review = "in_review"
status_value approved = "approved"
status_value published = "published"
status_value rejected = "rejected"
status_value archived = "archived"
status_value proposed = "proposed"
status_value withdrawn = "withdrawn"
status_value superseded = "superseded"
status_value discarded = "discarded"

-- The members of the enumeration, in its order.
abbrev pub statuses : List WorkflowStatus
statuses =
    draft ∷ in_review ∷ approved ∷ published ∷ rejected ∷ archived ∷ proposed ∷ withdrawn
    ∷ superseded ∷ discarded ∷ []

-- The calls `WorkflowStatus(raw)`: an enumeration looks up its member by the value; `none` is the
-- ValueError.
unfoldable pub parse_status : String → Option WorkflowStatus
unfolding status_value
parse_status raw = find? (λ s. str_eq raw (status_value s)) statuses

-- `action.value`
unfoldable pub action_value : WorkflowAction → String
action_value submit_review = "submit_review"
action_value approve = "approve"
action_value reject = "reject"
action_value publish = "publish"
action_value archive = "archive"
action_value return_to_draft = "return_to_draft"

-- Reading back the stored text of a status gives the status.
pub parse_status-status_value : (s : WorkflowStatus) → parse_status (status_value s) ≡ some s
unfolding parse_status status_value
parse_status-status_value draft = refl
parse_status-status_value _ = refl
