-- ===== src/Proposals/Steps.antt =====
-- Every sequence of operations of app/services/agent_proposal_service.py keeps the queue of
-- proposals in step with the versions.
use mathlib.Core.Option
use mimir_backend.Prelude.{
  ℕ, String, true, List, Option, none, some, ◌≡◌, refl, sym, ap, ◌∙◌, inl, inr, Option-cases,
  if◌then◌else◌, str_eq, eq_iff,
}
use mimir_backend.Prelude.Raises.{ok, found, found-ok, required, returned, ok-injective}
use mimir_backend.Workflow.Store.{Version}
use mimir_backend.Proposals.Store.{
  not_found, conflict, permission_denied, Tables, is_some, get_version, insert_proposal,
  insert_version, latest,
}
use mimir_backend.Proposals.Service.{
  is_reviewer, assert_agent_active, approve_draft, reject_draft, withdraw_proposal, batch_rollback,
}
use mimir_backend.Proposals.Propose.{
  NewIds, Reply, draft_document, draft_version, queue_row, create_draft, known_reply, propose_draft,
  assert_document_exists, propose_transition,
}
use mimir_backend.Proposals.Synced.{IsSynced, status_of}
use mimir_backend.Proposals.Queue.{review-IsSynced, withdraw-IsSynced, rollback_all-IsSynced}
use mimir_backend.Proposals.Inserted.{draft-IsSynced, transition-IsSynced}

-- One accepted operation.
pub data Step (t : Tables) : Tables → Type 0 where
  approved :
      (draft_id reviewer_id : String) (role notes : Option String) (now : ℕ) {u : Tables}
      → approve_draft t draft_id reviewer_id role notes now ≡ ok u
      → Step t u
  rejected :
      (draft_id reviewer_id : String) (role : Option String) (reason : String) (now : ℕ)
      {u : Tables}
      → reject_draft t draft_id reviewer_id role reason now ≡ ok u
      → Step t u
  withdrawn :
      (agent_id draft_id : String) (now : ℕ) {u : Tables}
      → withdraw_proposal t agent_id draft_id now ≡ ok u
      → Step t u
  reopened :
      (pids : List String) (action reviewer_id : String) (role : Option String)
      (actor_type : String) (now : ℕ) {u : Tables} {skipped : List String}
      → batch_rollback t pids action reviewer_id role actor_type now ≡ ok (u, skipped)
      → Step t u
  drafted :
      (ids : NewIds) (agent_id : String) (document_id document_type_id key : Option String)
      (now : ℕ) {u : Tables} {reply : Reply}
      → propose_draft t ids agent_id document_id document_type_id key now ≡ ok (u, reply)
      → Step t u
  transition :
      (ids : NewIds) (transition_id agent_id document_id target_state : String) (now : ℕ)
      {u : Tables}
      → propose_transition t ids transition_id agent_id document_id target_state now ≡ ok u
      → Step t u

pub data Reach (t : Tables) : Tables → Type 0 where
  start : Reach t t
  next : {u v : Tables} → Reach t u → Step u v → Reach t v

abbrev pub Synced : Tables → Type 0
Synced t = IsSynced t.versions t.proposals

is_some-eq : (o : Option String) (s : String) → is_some o s ≡ true → o ≡ some s
is_some-eq none s h = absurd (cc h)
is_some-eq (some r) s h = ap (λ (k : String). some k) ((eq_iff r s).0 h)

-- The version that a review reads is proposed.
pub proposed-status :
    (vs : List Version) (draft_id : String) (v : Version)
    → found (get_version vs draft_id) not_found ≡ ok v
    → is_some v.workflow_status "proposed" ≡ true
    → status_of vs draft_id ≡ some (some "proposed")
proposed-status vs draft_id v h e =
    ap (Option.map (λ (w : Version). w.workflow_status))
      (found-ok (get_version vs draft_id) not_found h)
    ∙ ap (λ (o : Option String). some o) (is_some-eq v.workflow_status "proposed" e)

approve_draft-Synced :
    (t : Tables) (draft_id reviewer_id : String) (role notes : Option String) (now : ℕ) {u : Tables}
    → Synced t
    → approve_draft t draft_id reviewer_id role notes now ≡ ok u
    → Synced u
unfolding approve_draft
approve_draft-Synced t draft_id reviewer_id role notes now s h =
    let (v, got, h1) = returned (found (get_version t.versions draft_id) not_found) _ h in
    let (proposed, h2) = required (is_some v.workflow_status "proposed") conflict _ h1 in
    let (_, last) = required (is_reviewer role) permission_denied _ h2 in
    rw (← ok-injective last) (
      review-IsSynced t.versions t.proposals draft_id "approved" reviewer_id notes now s
        (proposed-status t.versions draft_id v got proposed) refl)

reject_draft-Synced :
    (t : Tables) (draft_id reviewer_id : String) (role : Option String) (reason : String) (now : ℕ)
    {u : Tables}
    → Synced t
    → reject_draft t draft_id reviewer_id role reason now ≡ ok u
    → Synced u
unfolding reject_draft
reject_draft-Synced t draft_id reviewer_id role reason now s h =
    let (v, got, h1) = returned (found (get_version t.versions draft_id) not_found) _ h in
    let (proposed, h2) = required (is_some v.workflow_status "proposed") conflict _ h1 in
    let (_, last) = required (is_reviewer role) permission_denied _ h2 in
    rw (← ok-injective last) (
      review-IsSynced t.versions t.proposals draft_id "rejected" reviewer_id (some reason) now s
        (proposed-status t.versions draft_id v got proposed) refl)

withdraw_proposal-Synced :
    (t : Tables) (agent_id draft_id : String) (now : ℕ) {u : Tables}
    → Synced t
    → withdraw_proposal t agent_id draft_id now ≡ ok u
    → Synced u
unfolding withdraw_proposal
withdraw_proposal-Synced t agent_id draft_id now s h =
    let (_, _, h1) = returned (assert_agent_active t.agents agent_id) _ h in
    let (v, got, h2) = returned (found (get_version t.versions draft_id) not_found) _ h1 in
    let (proposed, last) = required (is_some v.workflow_status "proposed") conflict _ h2 in
    rw (← ok-injective last) (
      withdraw-IsSynced t.versions t.proposals draft_id now s
        (proposed-status t.versions draft_id v got proposed))

batch_rollback-Synced :
    (t : Tables) (pids : List String) (action reviewer_id : String) (role : Option String)
    (actor_type : String) (now : ℕ) {u : Tables} {skipped : List String}
    → Synced t
    → batch_rollback t pids action reviewer_id role actor_type now ≡ ok (u, skipped)
    → Synced u
unfolding batch_rollback
batch_rollback-Synced t pids action reviewer_id role actor_type now s h =
    let (_, last) = required (is_reviewer role) permission_denied _ h in
    let from : String = if str_eq action "approve" then "approved" else "rejected" in
    rw (ap (λ (r : Tables × List String). r.0) (sym (ok-injective last)))
      (rollback_all-IsSynced t pids from reviewer_id actor_type now s)

propose_draft-Synced :
    (t : Tables) (ids : NewIds) (agent_id : String)
    (document_id document_type_id key : Option String) (now : ℕ) {u : Tables} {reply : Reply}
    → Synced t
    → propose_draft t ids agent_id document_id document_type_id key now ≡ ok (u, reply)
    → Synced u
unfolding propose_draft create_draft
propose_draft-Synced t ids agent_id document_id document_type_id key now s h =
    let (_, _, h1) = returned (assert_agent_active t.agents agent_id) _ h in
    elim (Option-cases (known_reply t agent_id key)) [
      | inr (known, e) ↦ rw (ap (λ (r : Tables × Reply). r.0) (sym (ok-injective (rw e at h1)))) s
      | inl e ↦
          let h2 = rw e at h1 in
          let (document, _, h3) =
            returned (draft_document t ids document_id document_type_id now) _ h2 in
          let (vs, iv, h4) =
            returned (insert_version t.versions (draft_version t.versions ids document.1)) _ h3 in
          let (ps, ip, last) =
            returned
              (insert_proposal t.proposals
                (queue_row ids.proposal agent_id "draft" ids.version key now))
              _ h4 in
          rw (ap (λ (r : Tables × Reply). r.0) (sym (ok-injective last))) (
            draft-IsSynced t.versions t.proposals (draft_version t.versions ids document.1)
              (queue_row ids.proposal agent_id "draft" ids.version key now) s iv ip refl refl refl)
    ]

propose_transition-Synced :
    (t : Tables) (ids : NewIds) (transition_id agent_id document_id target_state : String) (now : ℕ)
    {u : Tables}
    → Synced t
    → propose_transition t ids transition_id agent_id document_id target_state now ≡ ok u
    → Synced u
unfolding propose_transition
propose_transition-Synced t ids transition_id agent_id document_id target_state now s h =
    let (_, _, h1) = returned (assert_agent_active t.agents agent_id) _ h in
    let (_, _, h2) = returned (assert_document_exists t.documents document_id) _ h1 in
    let (_, _, h3) = returned (found (latest t.versions document_id) not_found) _ h2 in
    let (ps, ip, last) =
      returned
        (insert_proposal t.proposals
          (queue_row ids.proposal agent_id "transition" transition_id none now))
        _ h3 in
    rw (← ok-injective last) (
      transition-IsSynced t.versions t.proposals
        (queue_row ids.proposal agent_id "transition" transition_id none now) s ip
        (λ e. cc ((eq_iff "transition" "draft").1 e)))

Step-Synced : {t u : Tables} → Step t u → Synced t → Synced u
Step-Synced {t} (approved draft_id reviewer_id role notes now h) s =
    approve_draft-Synced t draft_id reviewer_id role notes now s h
Step-Synced {t} (rejected draft_id reviewer_id role reason now h) s =
    reject_draft-Synced t draft_id reviewer_id role reason now s h
Step-Synced {t} (withdrawn agent_id draft_id now h) s =
    withdraw_proposal-Synced t agent_id draft_id now s h
Step-Synced {t} (reopened pids action reviewer_id role actor_type now h) s =
    batch_rollback-Synced t pids action reviewer_id role actor_type now s h
Step-Synced {t} (drafted ids agent_id document_id document_type_id key now h) s =
    propose_draft-Synced t ids agent_id document_id document_type_id key now s h
Step-Synced {t} (transition ids transition_id agent_id document_id target_state now h) s =
    propose_transition-Synced t ids transition_id agent_id document_id target_state now s h

-- Whatever the accepted operations of the service and their order: the version of each draft in the
-- queue is proposed if the row is pending, and otherwise has the row's own status, approved,
-- rejected or withdrawn; no two rows share an id, and no two drafts' rows a version. This says
-- nothing of what a workflow action does to such a version.
pub Reach-Synced : {t u : Tables} → Reach t u → Synced t → Synced u
Reach-Synced start s = s
Reach-Synced (next r step) s = Step-Synced step (Reach-Synced r s)
