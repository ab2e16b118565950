-- ===== src/Workflow/Approval.antt =====
-- What the trail of a published version holds, and what the optimistic lock keeps apart.
use mimir_backend.Prelude.Raises.{Result, ok, err}
use mimir_backend.Prelude.{ℕ, String, ◌≡◌, refl, ◌∙◌, ◌≢◌, Bool, true, false, some, arith}
use mimir_backend.Workflow.Enums.{
  WorkflowStatus, archived, superseded, discarded, proposed, withdrawn, parse_status,
}
use mimir_backend.Workflow.Policies.{is_transition_allowed}
use mimir_backend.Workflow.Store.{Db}
use mimir_backend.Workflow.Request.{Error, Request}
use mimir_backend.Workflow.Service.{
  Transition, check_action, write_action, finish_action, perform_action,
}
use mimir_backend.Workflow.Checks.{Checked, check_action-ok_iff}
use mimir_backend.Workflow.Effects.{status-write_action, performed}
use mimir_backend.Workflow.Trail.{resolve-stored}

-- A transition that is allowed changes the status.
target-ne-current : (s t : WorkflowStatus) → is_transition_allowed s t ≡ true → t ≢ s
unfolding is_transition_allowed
target-ne-current s t h e = ground arith

refused_later :
    (now : ℕ) (db : Db) (r q : Request) (t u : Transition) (raw : String)
    → Checked db r t
    → r.expected_current_status ≡ some raw
    → q.version_id ≡ r.version_id
    → q.expected_current_status ≡ some raw
    → Checked (write_action now db r t) q u
    → ⊥
refused_later now db r q t u raw c er v eq d =
    let first : parse_status raw ≡ some t.current = rw er at c.expected_met in
    let second : parse_status raw ≡ some u.current = rw eq at d.expected_met in
    let moved : u.current ≡ t.target =
      d.current_read
      ∙ rw v (rw (status-write_action now db r t c.version_found) (resolve-stored _ t.target)) in
    target-ne-current t.current t.target c.transition_allowed (cc (first, second, moved))

refused_after :
    (now acted_at now' acted_at' : ℕ) (db : Db) (r q : Request) (c : Result Error Transition)
    (raw : String)
    → check_action db r ≡ c
    → r.expected_current_status ≡ some raw
    → q.version_id ≡ r.version_id
    → q.expected_current_status ≡ some raw
    → performed (finish_action now acted_at db r c).0 ≡ 1
    → (d : Result Error Transition) → check_action (finish_action now acted_at db r c).1 q ≡ d
    → performed (finish_action now' acted_at' (finish_action now acted_at db r c).1 q d).0 ≡ 0
unfolding finish_action
refused_after now acted_at now' acted_at' db r q (ok t) raw e er v eq p (ok u) k = absurd (
    refused_later now db r q t u raw ((check_action-ok_iff db r t).0 e) er v eq
      ((check_action-ok_iff (write_action now db r t) q u).0 k))
refused_after now acted_at now' acted_at' db r q (ok t) raw e er v eq p (err x) k = refl
refused_after now acted_at now' acted_at' db r q (err x) raw e er v eq p d k = absurd (omega arith)

-- Of two requests for one version that expect the same status, the second is refused once the first
-- has been performed.
pub expected_status-once :
    (now acted_at now' acted_at' : ℕ) (db : Db) (r q : Request) (raw : String)
    → r.expected_current_status ≡ some raw
    → q.version_id ≡ r.version_id
    → q.expected_current_status ≡ some raw
    → performed (perform_action now acted_at db r).0 ≡ 1
    → performed (perform_action now' acted_at' (perform_action now acted_at db r).1 q).0 ≡ 0
unfolding perform_action
expected_status-once now acted_at now' acted_at' db r q raw er v eq p =
    refused_after now acted_at now' acted_at' db r q (check_action db r) raw refl er v eq p _ refl

-- A status that no transition leaves.
abbrev pub is_dead : WorkflowStatus → Bool
is_dead archived = true
is_dead superseded = true
is_dead discarded = true
is_dead proposed = true
is_dead withdrawn = true
is_dead _ = false
