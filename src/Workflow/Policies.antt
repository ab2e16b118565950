-- ===== src/Workflow/Policies.antt =====
-- app/domain/workflow/policies.py: which transitions there are, and which role may take them.
use mimir_backend.Prelude.{Bool, true, false, ◌&&◌, List, [], ◌∷◌, any}
use mimir_backend.Workflow.Enums.{
  WorkflowStatus, draft, in_review, approved, published, rejected, archived, superseded, discarded,
  WorkflowAction, submit_review, approve, reject, publish, archive, return_to_draft, WorkflowRole,
  author, reviewer, approver, admin,
}

-- `==` on two members of the enumeration
unfoldable pub status_eq : WorkflowStatus → WorkflowStatus → Bool
status_eq draft draft = true
status_eq in_review in_review = true
status_eq approved approved = true
status_eq published published = true
status_eq rejected rejected = true
status_eq archived archived = true
status_eq WorkflowStatus.proposed WorkflowStatus.proposed = true
status_eq WorkflowStatus.withdrawn WorkflowStatus.withdrawn = true
status_eq superseded superseded = true
status_eq discarded discarded = true
status_eq _ _ = false

-- ALLOWED_TRANSITIONS.get(current, set()); `proposed` and `withdrawn` are no keys of the table
allowed_transitions : WorkflowStatus → List WorkflowStatus
allowed_transitions draft = in_review ∷ []
allowed_transitions in_review = approved ∷ rejected ∷ []
allowed_transitions rejected = draft ∷ []
allowed_transitions approved = published ∷ []
allowed_transitions published = archived ∷ []
allowed_transitions archived = []
allowed_transitions superseded = []
allowed_transitions discarded = []
allowed_transitions _ = []

-- ACTION_TO_TARGET_STATUS, and `get_target_status`
unfoldable pub get_target_status : WorkflowAction → WorkflowStatus
get_target_status submit_review = in_review
get_target_status approve = approved
get_target_status reject = rejected
get_target_status publish = published
get_target_status archive = archived
get_target_status return_to_draft = draft

-- WORKFLOW_PERMISSIONS
workflow_permissions : WorkflowRole → List (WorkflowStatus × WorkflowStatus)
workflow_permissions author = (draft, in_review) ∷ (rejected, draft) ∷ []
workflow_permissions reviewer = (in_review, rejected) ∷ []
workflow_permissions approver =
    (in_review, approved) ∷ (approved, published) ∷ (published, archived) ∷ []
workflow_permissions admin = []

unfoldable pub is_transition_allowed : WorkflowStatus → WorkflowStatus → Bool
unfolding allowed_transitions status_eq
is_transition_allowed current target = any (λ s. status_eq s target) (allowed_transitions current)

unfoldable pub is_role_allowed : WorkflowRole → WorkflowStatus → WorkflowStatus → Bool
unfolding workflow_permissions status_eq
is_role_allowed admin current target = true
is_role_allowed role current target =
    any (λ (e : WorkflowStatus × WorkflowStatus). status_eq e.0 current && status_eq e.1 target)
      (workflow_permissions role)
