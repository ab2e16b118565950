-- ===== src/Proposals/Tests.antt =====
-- Runs of the proposals' operations at concrete tables.
use mimir_backend.Prelude.{ℕ, String, false, [], ◌∷◌, none, some, ◌≡◌, refl, eq_iff}
use mimir_backend.Prelude.Raises.{ok}
use mimir_backend.Prelude.Rows.{Row, here}
use mimir_backend.Workflow.Store.{Version}
use mimir_backend.Proposals.Store.{
  Proposal, Task, Tables, reviewed_row, insert_proposal, insert_version,
}
use mimir_backend.Proposals.Service.{
  assert_agent_active, reviewed, review_event, rolled_back, approve_draft, reject_draft,
  withdraw_proposal, rollback_row, rollback_all, batch_rollback,
}
use mimir_backend.Proposals.Propose.{
  NewIds, Reply, create_draft, lookup_idempotent_proposal, propose_draft,
}
use mimir_backend.Proposals.Synced.{status_of}
use mimir_backend.Proposals.Steps.{start, next, drafted, Synced, Reach-Synced}
use mimir_backend.Proposals.Gaps.{
  withdraw_proposal-any_agent, batch_rollback-any_status, reject_draft-task_completed,
}
use mimir_backend.Proposals.Replayed.{propose_draft-replayed}

abbrev empty : Tables
empty = record {
  agents =
      record { id = "bot"; is_disabled = false }
      ∷ record { id = "rival"; is_disabled = false }
      ∷ [];
  documents =
      record { id = "d"; status = "draft"; current_published_version_id = none; updated_at = 0 }
      ∷ [];
  versions = [];
  proposals = [];
  tasks = [];
  transitions = [];
  events = [];
}

empty-Synced : Synced empty
empty-Synced = record {
  agrees = λ p r. elim r [ ];
  one_id = λ p q r. elim r [ ];
  one_draft = λ p q r. elim r [ ];
}

abbrev ids : NewIds
ids = record { document = "new"; version = "v1"; task = "k1"; proposal = "p1" }

abbrev queued : String → Proposal
queued s = record {
  id = "p1";
  agent_id = "bot";
  proposal_type = "draft";
  reference_id = "v1";
  status = s;
  idempotency_key = some "key";
  reviewed_by = none;
  review_notes = none;
  review_timestamp = none;
  updated_at = 3;
}

abbrev version : String → Version
version s = record {
  id = "v1";
  document_id = "d";
  version_number = 1;
  status = "draft";
  workflow_status = some s;
  published_by = none;
  published_at = none;
}

abbrev task : String → ℕ → Task
task state progress = record {
  id = "k1";
  state = state;
  reference_type = "version";
  reference_id = "v1";
  agent_id = "bot";
  progress = progress;
}

-- The tables once the draft stands for review, with no events.
abbrev holding : String → String → Tables
holding s row_status = record empty {
  versions = version s ∷ [];
  proposals = queued row_status ∷ [];
  tasks = task "input_required" 0 ∷ [];
}

abbrev drafted_tables : Tables
drafted_tables = record (holding "proposed" "pending") {
  events =
      record {
        event_type = "agent.draft.proposed";
        actor_id = "bot";
        actor_type = "agent";
        resource_id = "v1";
        previous_state = none;
        new_state = "proposed";
      }
      ∷ [];
}

abbrev first_reply : Reply
first_reply = record { draft_id = "v1"; status = "proposed"; document_id = some "d" }

made :
    propose_draft empty ids "bot" (some "d") none (some "key") 3 ≡ ok (drafted_tables, first_reply)
unfolding propose_draft create_draft assert_agent_active lookup_idempotent_proposal insert_version
    insert_proposal
made = refl

Reach-Synced_example : Synced drafted_tables
Reach-Synced_example =
    Reach-Synced (next start (drafted ids "bot" (some "d") none (some "key") 3 made)) empty-Synced

propose_draft-replayed_example :
    (again : Reply) × (propose_draft drafted_tables ids "bot" none (some "page") (some "key") 9
      ≡ ok (drafted_tables, again))
    × (again.draft_id ≡ "v1")
propose_draft-replayed_example =
    propose_draft-replayed empty drafted_tables ids ids "bot" "key" (some "d") none none
      (some "page") 3 9 first_reply refl made

active :
    assert_agent_active empty.agents "rival" ≡ ok (record { id = "rival"; is_disabled = false })
unfolding assert_agent_active
active = refl

withdraw_proposal-any_agent_example :
    (u : Tables) × (withdraw_proposal (holding "proposed" "pending") "rival" "v1" 5 ≡ ok u)
    × (status_of u.versions "v1" ≡ some (some "withdrawn"))
    × Row (record (queued "withdrawn") { updated_at = 5 }) u.proposals
withdraw_proposal-any_agent_example =
    withdraw_proposal-any_agent (holding "proposed" "pending") "rival" "v1" 5
      (record { id = "rival"; is_disabled = false }) (version "proposed") (queued "pending") active
      refl refl here refl (λ e. cc ((eq_iff "bot" "rival").1 e))

-- The version has been published since.
batch_rollback-any_status_example :
    (u : Tables) × (batch_rollback
        (holding "published" "approved")
        ("p1" ∷ [])
        "approve"
        "eve"
        (some "REVIEWER")
        "user"
        7
      ≡ ok (u, []))
    × (status_of u.versions "v1" ≡ some (some "proposed"))
batch_rollback-any_status_example =
    batch_rollback-any_status (holding "published" "approved") "p1" "eve" (some "REVIEWER") "user"
      "published" 7 (queued "approved") (version "published") refl refl refl refl refl refl
      (λ e. cc ((eq_iff "published" "committed").1 e))

-- Approved, rolled back, and rejected.
abbrev approved_tables : Tables
approved_tables =
    reviewed (holding "proposed" "pending") "v1" "eve" none 6 "approved" "completed"
      (review_event "agent.draft.approved" "eve" "v1" "approved")

abbrev reopened_tables : Tables
reopened_tables =
    rolled_back approved_tables "p1" "approved" "eve" "user" 7
      (reviewed_row "v1" "approved" "eve" none 6 (queued "pending"))

abbrev rejected_tables : Tables
rejected_tables =
    reviewed reopened_tables "v1" "eve" (some "no") 8 "rejected" "failed"
      (review_event "agent.draft.rejected" "eve" "v1" "rejected")

approve_run :
    approve_draft (holding "proposed" "pending") "v1" "eve" (some "REVIEWER") none 6
    ≡ ok approved_tables
unfolding approve_draft
approve_run = refl

reopen_run :
    batch_rollback approved_tables ("p1" ∷ []) "approve" "eve" (some "REVIEWER") "user" 7
    ≡ ok (reopened_tables, [])
unfolding batch_rollback rollback_all rollback_row
reopen_run = refl

reject_run : reject_draft reopened_tables "v1" "eve" (some "REVIEWER") "no" 8 ≡ ok rejected_tables
unfolding reject_draft
reject_run = refl

reject_draft-task_completed_example :
    Row (task "completed" 100) rejected_tables.tasks
    × (status_of rejected_tables.versions "v1" ≡ some (some "rejected"))
reject_draft-task_completed_example =
    reject_draft-task_completed (holding "proposed" "pending") approved_tables reopened_tables
      rejected_tables "v1" ("p1" ∷ []) [] "eve" "user" "approve" "no" (some "REVIEWER") none 6 7 8
      (task "input_required" 0) approve_run reopen_run reject_run here refl refl refl
