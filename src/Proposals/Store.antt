-- ===== src/Proposals/Store.antt =====
-- The tables that app/services/agent_proposal_service.py reads and writes, and its statements on
-- them. A table is the list of its rows, the oldest first. Times are numbers.
use mimir_backend.Prelude.{
  ℕ, ◌+◌, max, String, Bool, false, not, ◌&&◌, ◌||◌, List, [], ◌∷◌, ◌++◌, map, Option, none, some,
  if◌then◌else◌, any, find?, str_eq, ltb, keep,
}
use mimir_backend.Prelude.Raises.{Result, ok, require}
use mimir_backend.Workflow.Store.{Document, Version}

-- The reasons for which a call fails; `database` is an error of the database.
pub data ProposalError : Type 0 where
  not_found conflict permission_denied database : ProposalError

pub record Agent : Type 0 where
  pub id : String
  pub is_disabled : Bool

-- A row of `agent_proposals`.
pub record Proposal : Type 0 where
  pub id : String
  pub agent_id : String
  pub proposal_type : String
  pub reference_id : String
  pub status : String
  pub idempotency_key : Option String
  pub reviewed_by : Option String
  pub review_notes : Option String
  pub review_timestamp : Option ℕ
  pub updated_at : ℕ

-- A row of `mcp_tasks`.
pub record Task : Type 0 where
  pub id : String
  pub state : String
  pub reference_type : String
  pub reference_id : String
  pub agent_id : String
  pub progress : ℕ

-- A row of `transition_proposals`.
pub record Transition : Type 0 where
  pub id : String
  pub agent_id : String
  pub document_id : String
  pub version_id : String
  pub current_state : String
  pub proposed_state : String
  pub status : String
  pub mcp_task_id : Option String

-- What one call of the audit emitter is given.
pub record Event : Type 0 where
  pub event_type : String
  pub actor_id : String
  pub actor_type : String
  pub resource_id : String
  pub previous_state : Option String
  pub new_state : String

pub record Tables : Type 0 where
  pub agents : List Agent
  pub documents : List Document
  pub versions : List Version
  pub proposals : List Proposal
  pub tasks : List Task
  pub transitions : List Transition
  pub events : List Event

abbrev pub is_some : Option String → String → Bool
is_some none s = false
is_some (some t) s = str_eq t s

abbrev pub get_version : List Version → String → Option Version
get_version vs version_id = find? (λ v. str_eq v.id version_id) vs

-- `UPDATE versions SET workflow_status = ... WHERE id = ...`
abbrev pub with_status : String → String → Version → Version
with_status version_id new_status v =
    if str_eq v.id version_id then record v { workflow_status = some new_status } else v

abbrev pub set_status : List Version → String → String → List Version
set_status vs version_id new_status = map (with_status version_id new_status) vs

-- The pending row of a draft in the queue.
abbrev pub is_pending : String → Proposal → Bool
is_pending draft_id p =
    str_eq p.reference_id draft_id && str_eq p.proposal_type "draft" && str_eq p.status "pending"

-- `UPDATE agent_proposals` of a review
abbrev pub reviewed_row : String → String → String → Option String → ℕ → Proposal → Proposal
reviewed_row draft_id new_status reviewer_id notes now p =
    if is_pending draft_id p
    then record p {
      status = new_status;
      reviewed_by = some reviewer_id;
      review_notes = notes;
      review_timestamp = some now;
      updated_at = now;
    }
    else p

-- `UPDATE agent_proposals` of a withdrawal
abbrev pub withdrawn_row : String → ℕ → Proposal → Proposal
withdrawn_row draft_id now p =
    if is_pending draft_id p then record p { status = "withdrawn"; updated_at = now } else p

-- `UPDATE agent_proposals` of a rollback
abbrev pub reopened_row : String → ℕ → Proposal → Proposal
reopened_row proposal_id now p =
    if str_eq p.id proposal_id
    then record p {
      status = "pending";
      reviewed_by = none;
      review_notes = none;
      review_timestamp = none;
      updated_at = now;
    }
    else p

-- `_sync_mcp_task_state`
abbrev pub synced_task : String → String → String → Task → Task
synced_task reference_type reference_id new_state k =
    if str_eq k.reference_type reference_type
      && str_eq k.reference_id reference_id
      && str_eq k.state "input_required"
    then record k {
      state = new_state;
      progress = if str_eq new_state "completed" || str_eq new_state "failed" then 100 else 50;
    }
    else k

-- `_create_mcp_task`, with the id that is generated
abbrev pub new_task : String → String → String → String → Task
new_task task_id reference_type reference_id agent_id = record {
  id = task_id;
  state = "input_required";
  reference_type = reference_type;
  reference_id = reference_id;
  agent_id = agent_id;
  progress = 0;
}

abbrev pub same_key : Option String → Option String → Bool
same_key (some j) key = is_some key j
same_key none key = false

-- The primary key and the unique index on the agent and the key.
abbrev pub clashes : Proposal → Proposal → Bool
clashes new p =
    str_eq p.id new.id
    || str_eq p.agent_id new.agent_id && same_key new.idempotency_key p.idempotency_key

-- `INSERT INTO agent_proposals`
unfoldable pub insert_proposal : List Proposal → Proposal → Result ProposalError (List Proposal)
insert_proposal ps new = require (not (any (clashes new) ps)) database (ok (ps ++ new ∷ []))

-- `INSERT INTO versions`, with its primary key
unfoldable pub insert_version : List Version → Version → Result ProposalError (List Version)
insert_version vs new =
    require (not (any (λ v. str_eq v.id new.id) vs)) database (ok (vs ++ new ∷ []))

-- `get_next_version_number`
abbrev pub next_version_number : List Version → String → ℕ
next_version_number [] document_id = 1
next_version_number (v ∷ vs) document_id =
    let n = next_version_number vs document_id in
    if str_eq v.document_id document_id then max (v.version_number + 1) n else n

abbrev higher : Version → Option Version → Version
higher v none = v
higher v (some w) = if ltb v.version_number w.version_number then w else v

abbrev highest : List Version → Option Version
highest [] = none
highest (v ∷ vs) = some (higher v (highest vs))

-- The version of a document with the highest number.
abbrev pub latest : List Version → String → Option Version
latest vs document_id = highest (keep (λ (v : Version). str_eq v.document_id document_id) vs)
