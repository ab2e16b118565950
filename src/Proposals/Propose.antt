-- ===== src/Proposals/Propose.antt =====
-- The two kinds of proposals that an agent makes: `propose_draft` and `propose_transition` of
-- app/services/agent_proposal_service.py, for an agent that acts for itself. The content of a draft
-- and what is derived from it are left out.
use Prim.Native.String
use mimir_backend.Prelude.{
  ℕ, String, Bool, not, ◌&&◌, List, [], ◌∷◌, ◌++◌, Option, none, some, if◌then◌else◌, any, find?,
  str_eq, truthy,
}
use mimir_backend.Prelude.Raises.{Result, ok, ◌>>=◌, require, found}
use mimir_backend.Workflow.Store.{Document, Version}
use mimir_backend.Proposals.Store.{
  ProposalError, not_found, conflict, database, Proposal, Tables, is_some, get_version, new_task,
  insert_proposal, insert_version, next_version_number, latest,
}
use mimir_backend.Proposals.Service.{assert_agent_active}

-- The ids that one call generates.
pub record NewIds : Type 0 where
  pub document : String
  pub version : String
  pub task : String
  pub proposal : String

-- What a call answers, as far as it is kept.
pub record Reply : Type 0 where
  pub draft_id : String
  pub status : String
  pub document_id : Option String

abbrev text_or : Option String → String → String
text_or none d = d
text_or (some s) d = if truthy (some s) then s else d

abbrev pub has_key : String → String → Proposal → Bool
has_key agent_id key p =
    str_eq p.agent_id agent_id && is_some p.idempotency_key key && str_eq p.proposal_type "draft"

abbrev pub version_reply : Proposal → Option Version → Reply
version_reply p none = record { draft_id = p.reference_id; status = "proposed"; document_id = none }
version_reply p (some v) = record {
  draft_id = p.reference_id;
  status = text_or v.workflow_status "proposed";
  document_id = some v.document_id;
}

abbrev pub joined_reply : List Version → Option Proposal → Option Reply
joined_reply vs none = none
joined_reply vs (some p) = some (version_reply p (get_version vs p.reference_id))

-- `_lookup_idempotent_proposal`
unfoldable pub lookup_idempotent_proposal : Tables → String → String → Option Reply
lookup_idempotent_proposal t agent_id key =
    joined_reply t.versions (find? (has_key agent_id key) t.proposals)

-- `_assert_document_exists`
abbrev pub assert_document_exists : List Document → String → Result ProposalError String
assert_document_exists ds document_id =
    require (any (λ (d : Document). str_eq d.id document_id) ds) not_found (ok document_id)

-- the document of the draft: a new one, or one that is there
abbrev pub draft_document :
    Tables
    → NewIds
    → Option String
    → Option String
    → ℕ
    → Result ProposalError (List Document × String)
draft_document t ids none document_type_id now = require (truthy document_type_id) conflict (
    require (not (any (λ (d : Document). str_eq d.id ids.document) t.documents)) database (
      ok (
        t.documents
            ++ record {
              id = ids.document;
              status = "draft";
              current_published_version_id = none;
              updated_at = now;
            }
              ∷ [],
        ids.document,
      )))
draft_document t ids (some document_id) document_type_id now =
    assert_document_exists t.documents document_id >>= λ found_id. ok (t.documents, found_id)

abbrev pub draft_version : List Version → NewIds → String → Version
draft_version vs ids document_id = record {
  id = ids.version;
  document_id = document_id;
  version_number = next_version_number vs document_id;
  status = "draft";
  workflow_status = some "proposed";
  published_by = none;
  published_at = none;
}

abbrev pub queue_row : String → String → String → String → Option String → ℕ → Proposal
queue_row proposal_id agent_id proposal_type reference_id key now = record {
  id = proposal_id;
  agent_id = agent_id;
  proposal_type = proposal_type;
  reference_id = reference_id;
  status = "pending";
  idempotency_key = key;
  reviewed_by = none;
  review_notes = none;
  review_timestamp = none;
  updated_at = now;
}

-- the writes of a new draft
unfoldable pub create_draft :
    Tables
    → NewIds
    → String
    → Option String
    → Option String
    → Option String
    → ℕ
    → Result ProposalError (Tables × Reply)
create_draft t ids agent_id document_id document_type_id key now = do
  document ← draft_document t ids document_id document_type_id now
  versions ← insert_version t.versions (draft_version t.versions ids document.1)
  proposals ←
      insert_proposal t.proposals (queue_row ids.proposal agent_id "draft" ids.version key now)
  ok (
    record t {
      documents = document.0;
      versions = versions;
      tasks = t.tasks ++ new_task ids.task "version" ids.version agent_id ∷ [];
      proposals = proposals;
      events =
          t.events
          ++ record {
            event_type = "agent.draft.proposed";
            actor_id = agent_id;
            actor_type = "agent";
            resource_id = ids.version;
            previous_state = none;
            new_state = "proposed";
          }
            ∷ [];
    },
    record { draft_id = ids.version; status = "proposed"; document_id = some document.1 },
  )

abbrev replayed :
    Tables
    → Option Reply
    → Result ProposalError (Tables × Reply)
    → Result ProposalError (Tables × Reply)
replayed t none rest = rest
replayed t (some reply) rest = ok (t, reply)

abbrev pub known_reply : Tables → String → Option String → Option Reply
known_reply t agent_id none = none
known_reply t agent_id (some key) =
    if truthy (some key) then lookup_idempotent_proposal t agent_id key else none

-- `propose_draft`
unfoldable pub propose_draft :
    Tables
    → NewIds
    → String
    → Option String
    → Option String
    → Option String
    → ℕ
    → Result ProposalError (Tables × Reply)
propose_draft t ids agent_id document_id document_type_id key now = do
  agent ← assert_agent_active t.agents agent_id
  replayed t (known_reply t agent_id key)
      (create_draft t ids agent_id document_id document_type_id key now)

abbrev current_state_of : Option Version → String
current_state_of none = "draft"
current_state_of (some v) = text_or v.workflow_status (text_or (some v.status) "draft")

-- `_get_current_workflow_status`
abbrev pub get_current_workflow_status : List Version → String → String
get_current_workflow_status vs document_id = current_state_of (latest vs document_id)

-- `propose_transition`
unfoldable pub propose_transition :
    Tables → NewIds → String → String → String → String → ℕ → Result ProposalError Tables
propose_transition t ids transition_id agent_id document_id target_state now = do
  agent ← assert_agent_active t.agents agent_id
  there ← assert_document_exists t.documents document_id
  version ← found (latest t.versions document_id) not_found
  proposals ←
      insert_proposal t.proposals
        (queue_row ids.proposal agent_id "transition" transition_id none now)
  ok (record t {
    transitions =
        t.transitions
        ++ record {
          id = transition_id;
          agent_id = agent_id;
          document_id = document_id;
          version_id = version.id;
          current_state = get_current_workflow_status t.versions document_id;
          proposed_state = target_state;
          status = "pending_approval";
          mcp_task_id = some ids.task;
        }
          ∷ [];
    tasks = t.tasks ++ new_task ids.task "transition_proposal" transition_id agent_id ∷ [];
    proposals = proposals;
    events =
        t.events
        ++ record {
          event_type = "agent.transition.proposed";
          actor_id = agent_id;
          actor_type = "agent";
          resource_id = document_id;
          previous_state = some (get_current_workflow_status t.versions document_id);
          new_state = String.◌++◌ "pending:" target_state;
        }
          ∷ [];
  })
