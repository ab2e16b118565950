-- ===== src/Workflow/Roles.antt =====
-- The two tables of app/domain/workflow/policies.py against each other.
use mimir_backend.Prelude.{◌≡◌, refl, ◌≢◌, true, arith}
use mimir_backend.Workflow.Enums.{
  WorkflowStatus, draft, in_review, approved, published, rejected, WorkflowAction, submit_review,
  approve, reject, publish, archive, return_to_draft, WorkflowRole, author, reviewer, approver,
  admin,
}
use mimir_backend.Workflow.Policies.{
  status_eq, is_transition_allowed, is_role_allowed, get_target_status,
}

-- The comments beside the actions: the one status that each starts from.
abbrev source_status : WorkflowAction → WorkflowStatus
source_status submit_review = draft
source_status approve = in_review
source_status reject = in_review
source_status publish = approved
source_status archive = published
source_status return_to_draft = rejected

-- The one role, apart from the administrator, that is given a transition.
abbrev owner : WorkflowStatus → WorkflowStatus → WorkflowRole
owner draft t = author
owner rejected t = author
owner in_review rejected = reviewer
owner s t = approver

-- The transition of an action is allowed from exactly one status, the one that its comment names.
pub action-one_source :
    (a : WorkflowAction) (s : WorkflowStatus)
    → is_transition_allowed s (get_target_status a) ≡ status_eq s (source_status a)
unfolding is_transition_allowed get_target_status
action-one_source submit_review s = ground arith
action-one_source _ s = ground arith

-- What a role other than the administrator may do is a transition of the state machine.
pub role-within_machine :
    (r : WorkflowRole) (s t : WorkflowStatus)
    → r ≢ admin
    → is_role_allowed r s t ≡ true
    → is_transition_allowed s t ≡ true
unfolding is_role_allowed is_transition_allowed
role-within_machine admin s t n h = absurd (n refl)
role-within_machine author s t n h = ground arith
role-within_machine _ s t n h = ground arith

-- Each transition of the state machine is given to exactly one role besides the administrator.
pub transition-one_role :
    (s t : WorkflowStatus)
    → is_transition_allowed s t ≡ true
    → (r : WorkflowRole) × (r ≢ admin)
      × (is_role_allowed r s t ≡ true)
      × ((q : WorkflowRole) → q ≢ admin → is_role_allowed q s t ≡ true → q ≡ r)
unfolding is_role_allowed is_transition_allowed
transition-one_role s t h = (owner s t, ground arith, ground arith, λ q n k. ground arith)
