-- ===== src/Proposals/Gaps.antt =====
-- What app/services/agent_proposal_service.py lets happen: a withdrawal by another agent, a rollback
-- of a published version, and a task that stays closed.
use mathlib.Core.Path.{subst}
use mathlib.Core.Option
use mimir_backend.Prelude.{
  ℕ, String, true, false, not, ◌||◌, List, [], ◌∷◌, map, Option, none, some, ◌≡◌, ◌≢◌, refl, sym,
  ap, ◌∙◌, inl, inr, Bool-cases, if◌then◌else◌, str_eq, eq_iff, eq_refl,
}
use mimir_backend.Prelude.Raises.{ok, found, required, returned, ok-injective}
use mimir_backend.Prelude.Rows.{Row, Row-map}
use mimir_backend.Workflow.Store.{Version}
use mimir_backend.Proposals.Store.{
  not_found, conflict, permission_denied, Agent, Proposal, Task, Tables, is_some, get_version,
  set_status, withdrawn_row, is_pending, synced_task,
}
use mimir_backend.Proposals.Service.{
  is_reviewer, assert_agent_active, withdrawn, approve_draft, reject_draft, withdraw_proposal,
  rollback_row, rollback_all, batch_rollback, get_proposal, rolled_back, joined_status,
}
use mimir_backend.Proposals.Synced.{status_of, status_of-set_self}
use mimir_backend.Proposals.Steps.{proposed-status}

status_of-version :
    (vs : List Version) (i s : String) (v : Version)
    → get_version vs i ≡ some v
    → v.workflow_status ≡ some s
    → status_of vs i ≡ some (some s)
status_of-version vs i s v e h =
    ap (Option.map (λ (w : Version). w.workflow_status)) e ∙ ap (λ (o : Option String). some o) h

withdrawn_row-pending :
    (draft_id : String) (now : ℕ) (p : Proposal)
    → is_pending draft_id p ≡ true
    → withdrawn_row draft_id now p ≡ record p { status = "withdrawn"; updated_at = now }
withdrawn_row-pending draft_id now p h = rw h refl

-- Any agent that is active withdraws any proposed draft, whichever agent's row in the queue stands
-- for it: the version becomes withdrawn, and so does that row.
pub withdraw_proposal-any_agent :
    (t : Tables) (agent_id draft_id : String) (now : ℕ) (a : Agent) (v : Version) (p : Proposal)
    → assert_agent_active t.agents agent_id ≡ ok a
    → get_version t.versions draft_id ≡ some v
    → v.workflow_status ≡ some "proposed"
    → Row p t.proposals
    → is_pending draft_id p ≡ true
    → p.agent_id ≢ agent_id
    → (u : Tables) × (withdraw_proposal t agent_id draft_id now ≡ ok u)
      × (status_of u.versions draft_id ≡ some (some "withdrawn"))
      × Row (record p { status = "withdrawn"; updated_at = now }) u.proposals
unfolding withdraw_proposal
withdraw_proposal-any_agent t agent_id draft_id now a v p active got proposed at pending other = (
  withdrawn t agent_id draft_id now,
  rw (active, got, proposed) refl,
  status_of-set_self t.versions draft_id "withdrawn"
      (status_of-version t.versions draft_id "proposed" v got proposed),
  subst (λ (q : Proposal). Row q (map (withdrawn_row draft_id now) t.proposals))
      (withdrawn_row-pending draft_id now p pending) (Row-map (withdrawn_row draft_id now) at),
)

unlike : (s k : String) → s ≢ k → str_eq s k ≡ false
unlike s k h = elim (Bool-cases (str_eq s k)) [ inl e ↦ absurd (h ((eq_iff s k).0 e)) | inr e ↦ e ]

joined_status-draft :
    (vs : List Version) (p : Proposal) (v : Version) (s : String)
    → str_eq p.proposal_type "draft" ≡ true
    → get_version vs p.reference_id ≡ some v
    → v.workflow_status ≡ some s
    → joined_status vs p ≡ some s
joined_status-draft vs p v s d got is = rw (d, got) is

rollback_row-done :
    (t : Tables) (pid rollback_from reviewer_id actor_type : String) (now : ℕ) (p : Proposal)
    → str_eq p.status rollback_from ≡ true
    → is_some (joined_status t.versions p) "committed" ≡ false
    → rollback_row t pid rollback_from reviewer_id actor_type now (some p)
      ≡ (rolled_back t pid rollback_from reviewer_id actor_type now p, false)
unfolding rollback_row
rollback_row-done t pid rollback_from reviewer_id actor_type now p e f = rw (e, f) refl

rolled_back-versions :
    (t : Tables) (pid rollback_from reviewer_id actor_type : String) (now : ℕ) (p : Proposal)
    → str_eq p.proposal_type "draft" ≡ true
    → (rolled_back t pid rollback_from reviewer_id actor_type now p).versions
      ≡ set_status t.versions p.reference_id "proposed"
rolled_back-versions t pid rollback_from reviewer_id actor_type now p d = rw d refl

-- A rollback of approvals sets the version of an approved draft back to proposed whatever has
-- become of it since, unless its status is `committed`, which no version has: a version that has
-- been published too. Nothing is skipped.
pub batch_rollback-any_status :
    (t : Tables) (pid reviewer_id : String) (role : Option String) (actor_type s : String) (now : ℕ)
    (p : Proposal) (v : Version)
    → is_reviewer role ≡ true
    → get_proposal t.proposals pid ≡ some p
    → p.proposal_type ≡ "draft"
    → p.status ≡ "approved"
    → get_version t.versions p.reference_id ≡ some v
    → v.workflow_status ≡ some s
    → s ≢ "committed"
    → (u : Tables) × (batch_rollback t (pid ∷ []) "approve" reviewer_id role actor_type now
        ≡ ok (u, []))
      × (status_of u.versions p.reference_id ≡ some (some "proposed"))
unfolding batch_rollback rollback_all
batch_rollback-any_status t pid reviewer_id role actor_type s now p v reviewer row draft approved
      got is other =
    let is_draft : str_eq p.proposal_type "draft" ≡ true =
      (eq_iff p.proposal_type "draft").1 draft in
    let is_approved : str_eq p.status "approved" ≡ true = (eq_iff p.status "approved").1 approved in
    let done = rollback_row-done t pid "approved" reviewer_id actor_type now p is_approved (
      ap (λ (o : Option String). is_some o "committed")
        (joined_status-draft t.versions p v s is_draft got is)
      ∙ unlike s "committed" other) in
    let u = rolled_back t pid "approved" reviewer_id actor_type now p in
    (
      u,
      rw (reviewer, row, done) refl,
      ap (λ (vs : List Version). status_of vs p.reference_id)
            (rolled_back-versions t pid "approved" reviewer_id actor_type now p is_draft)
          ∙ status_of-set_self t.versions p.reference_id "proposed"
              (status_of-version t.versions p.reference_id s v got is),
    )

rollback_row-tasks :
    (t : Tables) (pid rollback_from reviewer_id actor_type : String) (now : ℕ)
    (row : Option Proposal)
    → (rollback_row t pid rollback_from reviewer_id actor_type now row).0.tasks ≡ t.tasks
unfolding rollback_row
rollback_row-tasks t pid rollback_from reviewer_id actor_type now none = refl
rollback_row-tasks t pid rollback_from reviewer_id actor_type now (some p) =
    elim (Bool-cases
      (not (str_eq p.status rollback_from) || is_some (joined_status t.versions p) "committed")) [
        | inl e ↦ rw e refl
        | inr e ↦ rw e refl
      ]

rollback_all-tasks :
    (t : Tables) (pids : List String) (rollback_from reviewer_id actor_type : String) (now : ℕ)
    → (rollback_all t pids rollback_from reviewer_id actor_type now).0.tasks ≡ t.tasks
unfolding rollback_all
rollback_all-tasks t [] rollback_from reviewer_id actor_type now = refl
rollback_all-tasks t (pid ∷ pids) rollback_from reviewer_id actor_type now =
    rollback_all-tasks
      (rollback_row t pid rollback_from reviewer_id actor_type now (get_proposal t.proposals pid)).0
      pids rollback_from reviewer_id actor_type now
    ∙ rollback_row-tasks t pid rollback_from reviewer_id actor_type now
        (get_proposal t.proposals pid)

-- What an accepted approval leaves of the tasks, and what an accepted rejection does.
approve_draft-tasks :
    (t : Tables) (draft_id reviewer_id : String) (role notes : Option String) (now : ℕ) {u : Tables}
    → approve_draft t draft_id reviewer_id role notes now ≡ ok u
    → u.tasks ≡ map (synced_task "version" draft_id "completed") t.tasks
unfolding approve_draft
approve_draft-tasks t draft_id reviewer_id role notes now h =
    let (v, _, h1) = returned (found (get_version t.versions draft_id) not_found) _ h in
    let (_, h2) = required (is_some v.workflow_status "proposed") conflict _ h1 in
    let (_, last) = required (is_reviewer role) permission_denied _ h2 in
    ap (λ (w : Tables). w.tasks) (sym (ok-injective last))

reject_draft-tasks :
    (t : Tables) (draft_id reviewer_id : String) (role : Option String) (reason : String) (now : ℕ)
    {u : Tables}
    → reject_draft t draft_id reviewer_id role reason now ≡ ok u
    → (u.tasks ≡ map (synced_task "version" draft_id "failed") t.tasks)
      × (status_of u.versions draft_id ≡ some (some "rejected"))
unfolding reject_draft
reject_draft-tasks t draft_id reviewer_id role reason now h =
    let (v, got, h1) = returned (found (get_version t.versions draft_id) not_found) _ h in
    let (proposed, h2) = required (is_some v.workflow_status "proposed") conflict _ h1 in
    let (_, last) = required (is_reviewer role) permission_denied _ h2 in
    (
      ap (λ (w : Tables). w.tasks) (sym (ok-injective last)),
      ap (λ (w : Tables). status_of w.versions draft_id) (sym (ok-injective last))
          ∙ status_of-set_self t.versions draft_id "rejected"
              (proposed-status t.versions draft_id v got proposed),
    )

batch_rollback-tasks :
    (t : Tables) (pids : List String) (action reviewer_id : String) (role : Option String)
    (actor_type : String) (now : ℕ) {u : Tables} {skipped : List String}
    → batch_rollback t pids action reviewer_id role actor_type now ≡ ok (u, skipped)
    → u.tasks ≡ t.tasks
unfolding batch_rollback
batch_rollback-tasks t pids action reviewer_id role actor_type now h =
    let (_, last) = required (is_reviewer role) permission_denied _ h in
    ap (λ (r : Tables × List String). r.0.tasks) (sym (ok-injective last))
    ∙ rollback_all-tasks t pids (if str_eq action "approve" then "approved" else "rejected")
        reviewer_id actor_type now

-- The task of a draft that was approved, set back by a rollback and then rejected stays completed.
pub reject_draft-task_completed :
    (t u w x : Tables) (draft_id : String) (pids skipped : List String)
    (reviewer_id actor_type action reason : String) (role notes : Option String)
    (now later last : ℕ) (k : Task)
    → approve_draft t draft_id reviewer_id role notes now ≡ ok u
    → batch_rollback u pids action reviewer_id role actor_type later ≡ ok (w, skipped)
    → reject_draft w draft_id reviewer_id role reason last ≡ ok x
    → Row k t.tasks
    → k.reference_type ≡ "version"
    → k.reference_id ≡ draft_id
    → k.state ≡ "input_required"
    → Row (record k { state = "completed"; progress = 100 }) x.tasks
      × (status_of x.versions draft_id ≡ some (some "rejected"))
reject_draft-task_completed t u w x draft_id pids skipped reviewer_id actor_type action reason role
      notes now later last k h1 h2 h3 at type ref state =
    let (tasks_x, rejected) = reject_draft-tasks w draft_id reviewer_id role reason last h3 in
    let tasks_w =
      batch_rollback-tasks u pids action reviewer_id role actor_type later h2
      ∙ approve_draft-tasks t draft_id reviewer_id role notes now h1 in
    let completed : synced_task "version" draft_id "completed" k
        ≡ record k { state = "completed"; progress = 100 } =
      rw (type, ref, state, eq_refl draft_id) refl in
    let closed : synced_task "version" draft_id "failed"
          (record k { state = "completed"; progress = 100 })
        ≡ record k { state = "completed"; progress = 100 } =
      rw (type, ref, eq_refl draft_id) refl in
    let at_w =
      subst (λ (ks : List Task). Row (record k { state = "completed"; progress = 100 }) ks)
        (sym tasks_w)
        (subst (λ (j : Task). Row j (map (synced_task "version" draft_id "completed") t.tasks))
          completed (Row-map (synced_task "version" draft_id "completed") at)) in
    (
      subst (λ (ks : List Task). Row (record k { state = "completed"; progress = 100 }) ks)
          (sym tasks_x)
          (subst (λ (j : Task). Row j (map (synced_task "version" draft_id "failed") w.tasks))
            closed (Row-map (synced_task "version" draft_id "failed") at_w)),
      rejected,
    )
