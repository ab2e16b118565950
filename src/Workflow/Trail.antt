-- ===== src/Workflow/Trail.antt =====
-- The history of a version is a trail of permitted transitions that ends in its status.
use mimir_backend.Prelude.Raises.{Result, ok, err}
use mimir_backend.Prelude.{
  ℕ, String, ◌≡◌, refl, ◌∙◌, Bool, true, false, ◌&&◌, Option, none, some, List, [], ◌∷◌, ◌++◌,
  arith, inl, inr, Bool-cases, Option-cases, str_eq, eq_iff, eq_refl, any, if◌then◌else◌,
}
use mimir_backend.Workflow.Enums.{
  WorkflowStatus, approved, draft, status_value, parse_status, parse_status-status_value,
  WorkflowRole, approver, admin,
}
use mimir_backend.Workflow.Policies.{is_transition_allowed, is_role_allowed}
use mimir_backend.Workflow.Store.{WorkflowHistory, Db, get_workflow_status}
use mimir_backend.Workflow.Request.{Error, Request, resolve_role, resolve_current_workflow_status}
use mimir_backend.Workflow.Service.{
  Transition, check_action, write_action, history_row, finish_action, perform_action,
}
use mimir_backend.Workflow.Checks.{Checked, check_action-ok_iff}
use mimir_backend.Workflow.Effects.{
  status-write_action, status-write_action_ne, history-write_action,
}

-- An entry leads from `s` to the status it names, if it starts at `s` and its actor may do that.
abbrev pub arrive : WorkflowStatus → WorkflowHistory → Option WorkflowStatus → Option WorkflowStatus
arrive s h none = none
arrive s h (some t) =
    if is_transition_allowed s t && is_role_allowed (resolve_role h.actor_role) s t
    then some t
    else none

unfoldable pub take_step : WorkflowStatus → WorkflowHistory → Option WorkflowStatus
take_step s h =
    if str_eq h.from_status (status_value s) then arrive s h (parse_status h.to_status) else none

-- The status that the entries of version `v` lead to from `s`; `none` if some entry does not fit.
abbrev pub then_follow :
    Option WorkflowStatus → (WorkflowStatus → Option WorkflowStatus) → Option WorkflowStatus
then_follow none k = none
then_follow (some t) k = k t

unfoldable pub follow : String → WorkflowStatus → List WorkflowHistory → Option WorkflowStatus
follow v s [] = some s
follow v s (h ∷ hs) =
    if str_eq h.version_id v
    then then_follow (take_step s h) (λ t. follow v t hs)
    else follow v s hs

-- The stored status of `v` is the end of its history from `s0`.
pub record IsTrail (v : String) (s0 : WorkflowStatus) (db : Db) : Type 0 where
  pub now : WorkflowStatus
  pub stored : get_workflow_status db v ≡ some (status_value now)
  pub led : follow v s0 db.workflow_history ≡ some now

follow-append :
    (v : String) (s : WorkflowStatus) (hs : List WorkflowHistory) (h : WorkflowHistory)
    {t : WorkflowStatus}
    → follow v s hs ≡ some t
    → follow v s (hs ++ h ∷ []) ≡ follow v t (h ∷ [])
unfolding follow
follow-append v s [] h e = cc
follow-append v s (g ∷ hs) h {t} e = elim (Bool-cases (str_eq g.version_id v)) [
  | inl b ↦ elim (Option-cases (take_step s g)) [
    | inl k ↦ absurd (cc (rw (b, k) at e))
    | inr (u, k) ↦ rw (b, k) (follow-append v u hs h {t = t} (rw (b, k) at e))
  ]
  | inr b ↦ rw b (follow-append v s hs h {t = t} (rw b at e))
]

-- Whether an entry of the history is about the version `v`.
abbrev pub is_about : String → WorkflowHistory → Bool
is_about v h = str_eq h.version_id v

-- A history without an entry of the version leaves its status.
pub follow_unmentioned :
    (v : String) (s : WorkflowStatus) (hs : List WorkflowHistory)
    → any (is_about v) hs ≡ false
    → follow v s hs ≡ some s
unfolding follow
follow_unmentioned v s [] e = refl
follow_unmentioned v s (h ∷ hs) e = elim (Bool-cases (str_eq h.version_id v)) [
  | inl b ↦ absurd (ground arith)
  | inr b ↦ rw b (follow_unmentioned v s hs (ground arith))
]

-- A stored status is read back, whatever the version's own status column says.
pub resolve-stored :
    (x : String) (s : WorkflowStatus)
    → resolve_current_workflow_status x (some (status_value s)) ≡ s
unfolding resolve_current_workflow_status parse_status status_value
resolve-stored x draft = refl
resolve-stored x _ = refl

-- The entry that an action writes leads from the status it read to its target.
take_step-history_row :
    (db : Db) (r : Request) (t : Transition)
    → Checked db r t
    → take_step t.current (history_row r t) ≡ some t.target
unfolding take_step history_row
take_step-history_row db r t c =
    simp (eq_refl, parse_status-status_value, c.transition_allowed, ← c.role_read, c.role_allowed)

follow-history_row :
    (v : String) (s : WorkflowStatus) (r : Request) (t : Transition)
    → follow v s (history_row r t ∷ [])
      ≡ (if str_eq r.version_id v then take_step s (history_row r t) else some s)
unfolding follow history_row
follow-history_row v s r t = ground arith

module _ (now : ℕ) (v : String) (s0 : WorkflowStatus) (db : Db) (r : Request) (t : Transition)
    (tr : IsTrail v s0 db) (c : Checked db r t) where
  led-write_action :
      follow v s0 (write_action now db r t).workflow_history
      ≡ (if str_eq r.version_id v then take_step tr.now (history_row r t) else some tr.now)
  led-write_action =
      rw (history-write_action now db r t)
        (follow-append v s0 db.workflow_history _ tr.led ∙ follow-history_row v tr.now r t)

  current-eq-now : r.version_id ≡ v → t.current ≡ tr.now
  current-eq-now p = c.current_read ∙ rw p (rw tr.stored (resolve-stored _ tr.now))

  write_action-IsTrail : IsTrail v s0 (write_action now db r t)
  write_action-IsTrail = elim (Bool-cases (str_eq r.version_id v)) [
    | inl e ↦
        let p = (eq_iff r.version_id v).0 e in
        record {
          now = t.target;
          stored = rw (← p) (status-write_action now db r t c.version_found);
          led = led-write_action ∙ rw e (rw (← current-eq-now p) (take_step-history_row db r t c));
        }
    | inr e ↦ record {
      now = tr.now;
      stored = status-write_action_ne now db r t v e ∙ tr.stored;
      led = led-write_action ∙ rw e refl;
    }
  ]

finish_action-IsTrail :
    (now acted_at : ℕ) (v : String) (s0 : WorkflowStatus) (db : Db) (r : Request)
    (c : Result Error Transition)
    → check_action db r ≡ c
    → IsTrail v s0 db
    → IsTrail v s0 (finish_action now acted_at db r c).1
unfolding finish_action
finish_action-IsTrail now acted_at v s0 db r (ok t) e tr =
    write_action-IsTrail now v s0 db r t tr ((check_action-ok_iff db r t).0 e)
finish_action-IsTrail now acted_at v s0 db r (err x) e tr = tr

-- Any requests, one after the other, each with the two readings of the clock that it makes.
unfoldable pub perform_all : Db → List (ℕ × ℕ × Request) → Db
perform_all db [] = db
perform_all db ((now, acted_at, r) ∷ rs) = perform_all (perform_action now acted_at db r).1 rs

-- Whatever requests are made, performed or refused, on this version or others: the history of a
-- version stays a chain of transitions that the state machine allows and that the role recorded in
-- each entry permits, and the stored status is where the chain ends.
pub perform_all-IsTrail :
    (v : String) (s0 : WorkflowStatus) (db : Db) (rs : List (ℕ × ℕ × Request))
    → IsTrail v s0 db
    → IsTrail v s0 (perform_all db rs)
unfolding perform_all perform_action
perform_all-IsTrail v s0 db [] tr = tr
perform_all-IsTrail v s0 db ((now, acted_at, r) ∷ rs) tr =
    perform_all-IsTrail v s0 (perform_action now acted_at db r).1 rs
      (finish_action-IsTrail now acted_at v s0 db r (check_action db r) refl tr)

-- An approval of version `v`, recorded with the role of an approver or of an administrator.
abbrev pub may_approve : WorkflowRole → Bool
may_approve approver = true
may_approve admin = true
may_approve _ = false

unfoldable pub is_approval : String → WorkflowHistory → Bool
is_approval v h =
    str_eq h.version_id v
    && str_eq h.to_status (status_value approved)
    && may_approve (resolve_role h.actor_role)
