-- ===== src/Proposals/Service.antt =====
-- The operations of app/services/agent_proposal_service.py. The ids that it generates are arguments.
use mimir_backend.Prelude.{
  ℕ, String, Bool, true, false, not, ◌||◌, List, [], ◌∷◌, ◌++◌, map, Option, none, some,
  if◌then◌else◌, find?, str_eq,
}
use mimir_backend.Prelude.Raises.{Result, ok, ◌>>=◌, require, found}
use mimir_backend.Workflow.Store.{Version}
use mimir_backend.Proposals.Store.{
  ProposalError, not_found, conflict, permission_denied, Agent, Proposal, Task, Event, Tables,
  is_some, get_version, set_status, reviewed_row, withdrawn_row, reopened_row, synced_task,
}

-- `_REVIEWER_ROLES`
abbrev pub is_reviewer : Option String → Bool
is_reviewer role =
    is_some role "REVIEWER"
    || is_some role "APPROVER"
    || is_some role "ORG_ADMIN"
    || is_some role "SUPER_ADMIN"

-- `_assert_agent_active`
unfoldable pub assert_agent_active : List Agent → String → Result ProposalError Agent
assert_agent_active agents agent_id = do
  a ← found (find? (λ (a : Agent). str_eq a.id agent_id) agents) not_found
  require (not a.is_disabled) permission_denied (ok a)

-- `_sync_mcp_task_state`
abbrev pub sync_mcp_task_state : List Task → String → String → String → List Task
sync_mcp_task_state tasks reference_type reference_id new_state =
    map (synced_task reference_type reference_id new_state) tasks

-- What a review writes: the version, the queue, the task and the event.
abbrev pub reviewed :
    Tables → String → String → Option String → ℕ → String → String → Event → Tables
reviewed t draft_id reviewer_id notes now new_status task_state event = record t {
  versions = set_status t.versions draft_id new_status;
  proposals = map (reviewed_row draft_id new_status reviewer_id notes now) t.proposals;
  tasks = sync_mcp_task_state t.tasks "version" draft_id task_state;
  events = t.events ++ event ∷ [];
}

abbrev pub review_event : String → String → String → String → Event
review_event event_type reviewer_id draft_id new_status = record {
  event_type = event_type;
  actor_id = reviewer_id;
  actor_type = "user";
  resource_id = draft_id;
  previous_state = some "proposed";
  new_state = new_status;
}

-- `approve_draft`
unfoldable pub approve_draft :
    Tables → String → String → Option String → Option String → ℕ → Result ProposalError Tables
approve_draft t draft_id reviewer_id reviewer_role notes now = do
  version ← found (get_version t.versions draft_id) not_found
  require (is_some version.workflow_status "proposed") conflict (
      require (is_reviewer reviewer_role) permission_denied (
        ok (
          reviewed t draft_id reviewer_id notes now "approved" "completed"
            (review_event "agent.draft.approved" reviewer_id draft_id "approved"))))

-- `reject_draft`
unfoldable pub reject_draft :
    Tables → String → String → Option String → String → ℕ → Result ProposalError Tables
reject_draft t draft_id reviewer_id reviewer_role reason now = do
  version ← found (get_version t.versions draft_id) not_found
  require (is_some version.workflow_status "proposed") conflict (
      require (is_reviewer reviewer_role) permission_denied (
        ok (
          reviewed t draft_id reviewer_id (some reason) now "rejected" "failed"
            (review_event "agent.draft.rejected" reviewer_id draft_id "rejected"))))

-- the writes of a withdrawal
abbrev pub withdrawn : Tables → String → String → ℕ → Tables
withdrawn t agent_id proposal_id now = record t {
  versions = set_status t.versions proposal_id "withdrawn";
  proposals = map (withdrawn_row proposal_id now) t.proposals;
  tasks = sync_mcp_task_state t.tasks "version" proposal_id "failed";
  events =
      t.events
      ++ record {
        event_type = "agent.draft.withdrawn";
        actor_id = agent_id;
        actor_type = "agent";
        resource_id = proposal_id;
        previous_state = some "proposed";
        new_state = "withdrawn";
      }
        ∷ [];
}

-- `withdraw_proposal`
unfoldable pub withdraw_proposal : Tables → String → String → ℕ → Result ProposalError Tables
withdraw_proposal t agent_id proposal_id now = do
  agent ← assert_agent_active t.agents agent_id
  version ← found (get_version t.versions proposal_id) not_found
  require (is_some version.workflow_status "proposed") conflict
      (ok (withdrawn t agent_id proposal_id now))

abbrev pub workflow_status_of : Option Version → Option String
workflow_status_of none = none
workflow_status_of (some v) = v.workflow_status

-- The status of the version that a row joins, for a draft.
abbrev pub joined_status : List Version → Proposal → Option String
joined_status vs p =
    if str_eq p.proposal_type "draft"
    then workflow_status_of (get_version vs p.reference_id)
    else none

-- The writes of one rollback. The column of the reference is never null.
abbrev pub rolled_back : Tables → String → String → String → String → ℕ → Proposal → Tables
rolled_back t pid rollback_from reviewer_id actor_type now p = record t {
  proposals = map (reopened_row pid now) t.proposals;
  versions =
      if str_eq p.proposal_type "draft"
      then set_status t.versions p.reference_id "proposed"
      else t.versions;
  events =
      t.events
      ++ record {
        event_type = "agent.proposal.rolled_back";
        actor_id = reviewer_id;
        actor_type = actor_type;
        resource_id = pid;
        previous_state = some rollback_from;
        new_state = "pending";
      }
        ∷ [];
}

-- The tests of one rollback; the result says whether the row was skipped.
unfoldable pub rollback_row :
    Tables → String → String → String → String → ℕ → Option Proposal → Tables × Bool
rollback_row t pid rollback_from reviewer_id actor_type now none = (t, true)
rollback_row t pid rollback_from reviewer_id actor_type now (some p) =
    if not (str_eq p.status rollback_from) || is_some (joined_status t.versions p) "committed"
    then (t, true)
    else (rolled_back t pid rollback_from reviewer_id actor_type now p, false)

abbrev pub get_proposal : List Proposal → String → Option Proposal
get_proposal ps pid = find? (λ (p : Proposal). str_eq p.id pid) ps

-- The loop: the tables and the ids that were skipped.
unfoldable pub rollback_all :
    Tables → List String → String → String → String → ℕ → Tables × List String
rollback_all t [] rollback_from reviewer_id actor_type now = (t, [])
rollback_all t (pid ∷ pids) rollback_from reviewer_id actor_type now =
    let one =
      rollback_row t pid rollback_from reviewer_id actor_type now (get_proposal t.proposals pid) in
    let rest = rollback_all one.0 pids rollback_from reviewer_id actor_type now in
    (rest.0, if one.1 then pid ∷ rest.1 else rest.1)

-- `batch_rollback`
unfoldable pub batch_rollback :
    Tables
    → List String
    → String
    → String
    → Option String
    → String
    → ℕ
    → Result ProposalError (Tables × List String)
batch_rollback t proposal_ids original_action reviewer_id reviewer_role actor_type now =
    require (is_reviewer reviewer_role) permission_denied (
      ok (
        rollback_all t proposal_ids
          (if str_eq original_action "approve" then "approved" else "rejected") reviewer_id
          actor_type now))
