-- ===== src/Workflow/Checks.antt =====
-- When `perform_action` gets past its checks.
use mimir_backend.Prelude.Raises.{ok}
use mimir_backend.Prelude.{
  String, ◌≡◌, refl, ap, sym, ◌∙◌, ◌↔◌, true, Option, none, some, arith, inl, inr, Option-cases,
  truthy,
}
use mimir_backend.Workflow.Enums.{WorkflowStatus, parse_status, reject, draft}
use mimir_backend.Workflow.Policies.{
  status_eq, is_transition_allowed, is_role_allowed, get_target_status,
}
use mimir_backend.Workflow.Store.{
  Document, Version, Db, get_document, get_version, get_workflow_status,
}
use mimir_backend.Workflow.Request.{Request, resolve_role, resolve_current_workflow_status}
use mimir_backend.Workflow.Service.{Transition, check_transition, check_action, check_expected}

pub status_eq-eq : (s t : WorkflowStatus) → status_eq s t ≡ true → s ≡ t
unfolding status_eq
status_eq-eq draft t h = ground arith
status_eq-eq _ t h = ground arith

pub status_eq_refl : (s : WorkflowStatus) → status_eq s s ≡ true
unfolding status_eq
status_eq_refl draft = refl
status_eq_refl _ = refl

-- The expected status of a request is absent, or the text of `s`.
abbrev pub Expects : Option String → WorkflowStatus → Type 0
Expects none s = Unit
Expects (some raw) s = parse_status raw ≡ some s

-- All that the checks ask of a request, and what they hand on.
pub record Checked (db : Db) (r : Request) (t : Transition) : Type 0 where
  pub reason_given : r.action ≡ reject → truthy r.reason ≡ true
  pub document : Document
  pub document_found : get_document db r.document_id ≡ some document
  pub version_found : get_version db r.document_id r.version_id ≡ some t.version
  pub current_read :
      t.current
      ≡ resolve_current_workflow_status t.version.status (get_workflow_status db r.version_id)
  pub expected_met : Expects r.expected_current_status t.current
  pub target_set : t.target ≡ get_target_status r.action
  pub role_read : t.role ≡ resolve_role r.actor_role
  pub transition_allowed : is_transition_allowed t.current t.target ≡ true
  pub role_allowed : is_role_allowed t.role t.current t.target ≡ true

check_expected-Expects :
    (raw : Option String) (s : WorkflowStatus) → check_expected raw s ≡ ok tt → Expects raw s
unfolding check_expected
check_expected-Expects none s h = tt
check_expected-Expects (some raw) s h = elim (Option-cases (parse_status raw)) [
  | inl e ↦ ground arith
  | inr (t, e) ↦ ground (arith, status_eq-eq s t)
]

Expects-check_expected :
    (raw : Option String) (s : WorkflowStatus) → Expects raw s → check_expected raw s ≡ ok tt
unfolding check_expected
Expects-check_expected none s h = refl
Expects-check_expected (some raw) s h = rw h (rw status_eq_refl)

Decided : Request → Version → WorkflowStatus → Transition → Type 0
Decided r v c t =
    (t.version ≡ v)
    × (t.current ≡ c)
    × Expects r.expected_current_status c
    × (t.target ≡ get_target_status r.action)
    × (t.role ≡ resolve_role r.actor_role)
    × (is_transition_allowed t.current t.target ≡ true)
    × (is_role_allowed t.role t.current t.target ≡ true)

check_transition-Decided :
    (r : Request) (v : Version) (c : WorkflowStatus) (t : Transition)
    → check_transition r v c ≡ ok t
    → Decided r v c t
unfolding check_transition Decided
check_transition-Decided r v c t h = (
  ground arith,
  ground arith,
  check_expected-Expects r.expected_current_status c (ground arith),
  ground arith,
  ground arith,
  ground arith,
  ground arith,
)

Decided-check_transition :
    (r : Request) (v : Version) (c : WorkflowStatus) (t : Transition)
    → Decided r v c t
    → check_transition r v c ≡ ok t
unfolding check_transition Decided
Decided-check_transition r v c t d =
    ground (arith, Expects-check_expected r.expected_current_status c d.2)

abbrev reading : Db → Request → Version → WorkflowStatus
reading db r v = resolve_current_workflow_status v.status (get_workflow_status db r.version_id)

-- The first three checks, and what is left to check.
check_action-start :
    (db : Db) (r : Request) (t : Transition)
    → check_action db r ≡ ok t
    → (r.action ≡ reject → truthy r.reason ≡ true)
      × (d : Document) × (v : Version) × (get_document db r.document_id ≡ some d)
      × (get_version db r.document_id r.version_id ≡ some v)
      × (check_transition r v (reading db r v) ≡ ok t)
unfolding check_action
check_action-start db r t h = elim (Option-cases (get_document db r.document_id)) [
  | inl e ↦ ground arith
  | inr (d, e) ↦ elim (Option-cases (get_version db r.document_id r.version_id)) [
    | inl e' ↦ ground arith
    | inr (v, e') ↦ (ground arith, d, v, e, e', ground arith)
  ]
]

check_action-Checked :
    (db : Db) (r : Request) (t : Transition) → check_action db r ≡ ok t → Checked db r t
unfolding Decided
check_action-Checked db r t h =
    let (reasoned, d, v, e, e', rest) = check_action-start db r t h in
    let (same, read, met, target, role, allowed, permitted) =
      check_transition-Decided r v (reading db r v) t rest in
    record {
      reason_given = reasoned;
      document = d;
      document_found = e;
      version_found = e' ∙ ap some (sym same);
      current_read = rw same read;
      expected_met = rw read met;
      target_set = target;
      role_read = role;
      transition_allowed = allowed;
      role_allowed = permitted;
    }

Checked-check_action :
    (db : Db) (r : Request) (t : Transition) → Checked db r t → check_action db r ≡ ok t
unfolding check_action Decided
Checked-check_action db r t c =
    let rest : check_transition r t.version (reading db r t.version) ≡ ok t =
      Decided-check_transition r t.version (reading db r t.version) t (
        refl,
        c.current_read,
        rw (← c.current_read) c.expected_met,
        c.target_set,
        c.role_read,
        c.transition_allowed,
        c.role_allowed,
      ) in
    ground (arith, c.document_found, c.version_found, c.reason_given)

-- The checks pass exactly when each of their conditions holds, and hand on what they read.
pub check_action-ok_iff :
    (db : Db) (r : Request) (t : Transition) → (check_action db r ≡ ok t) ↔ Checked db r t
check_action-ok_iff db r t = (check_action-Checked db r t, Checked-check_action db r t)
