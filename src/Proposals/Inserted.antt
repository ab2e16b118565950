-- ===== src/Proposals/Inserted.antt =====
-- New rows in the queue of app/services/agent_proposal_service.py keep it in step with the versions.
use mathlib.Core.Path.{subst}
use mimir_backend.Prelude.{
  String, Bool, true, false, not, List, [], ◌∷◌, ◌++◌, Option, none, some, ◌≡◌, ◌≢◌, refl, sym, ap,
  ◌∙◌, inl, inr, arith, Bool-cases, any, str_eq, eq_refl,
}
use mimir_backend.Prelude.Raises.{ok, required, ok-injective}
use mimir_backend.Prelude.Rows.{Row, Row-snoc_inv, any-Row}
use mimir_backend.Workflow.Store.{Version}
use mimir_backend.Proposals.Store.{Proposal, database, clashes, insert_proposal, insert_version}
use mimir_backend.Proposals.Synced.{IsSynced, Agrees, status_of, version_status}

-- A version that is there keeps its status when another is added.
status_of-append :
    (vs : List Version) (v : Version) (i : String) {o : Option String}
    → status_of vs i ≡ some o
    → status_of (vs ++ v ∷ []) i ≡ some o
status_of-append [] v i h = absurd (cc h)
status_of-append (w ∷ vs) v i h = elim (Bool-cases (str_eq w.id i)) [
  | inl e ↦ rw e (rw e at h)
  | inr e ↦ rw e (status_of-append vs v i (rw e at h))
]

not-true : (b : Bool) → not b ≡ true → b ≡ false
not-true false h = refl
not-true true h = absurd (cc h)

-- A new version is found by its new id.
status_of-new :
    (vs : List Version) (v : Version)
    → any (λ (w : Version). str_eq w.id v.id) vs ≡ false
    → (status_of vs v.id ≡ none) × (status_of (vs ++ v ∷ []) v.id ≡ some v.workflow_status)
status_of-new [] v h = (refl, rw (eq_refl v.id) refl)
status_of-new (w ∷ vs) v h = ground (arith, status_of-new vs v)

apart-id : (p q : Proposal) → clashes q p ≡ false → p.id ≢ q.id
apart-id p q h e =
    let shared : clashes q p ≡ true = rw (e, eq_refl q.id) refl in cc (sym h ∙ shared)

-- A new row with a new id, which agrees with its version, and is the only one for it.
append-IsSynced :
    (vs ws : List Version) (ps : List Proposal) (q : Proposal)
    → IsSynced vs ps
    → ((p : Proposal) → Row p ps → Agrees ws p)
    → Agrees ws q
    → ((p : Proposal)
        → Row p ps
        → p.proposal_type ≡ "draft"
        → q.proposal_type ≡ "draft"
        → p.reference_id ≢ q.reference_id)
    → any (clashes q) ps ≡ false
    → IsSynced ws (ps ++ q ∷ [])
append-IsSynced vs ws ps q s old new only free = record {
  agrees = λ p at. elim (Row-snoc_inv ps q at) [
    | inl r ↦ old p r
    | inr e ↦ subst (Agrees ws) (sym e) new
  ];
  one_id = λ p k at at_k e. elim (Row-snoc_inv ps q at) [
    | inl r ↦ elim (Row-snoc_inv ps q at_k) [
      | inl r' ↦ s.one_id p k r r' e
      | inr y ↦ absurd (fresh p r (e ∙ ap (λ (x : Proposal). x.id) y))
    ]
    | inr x ↦ elim (Row-snoc_inv ps q at_k) [
      | inl r' ↦ absurd (fresh k r' (sym e ∙ ap (λ (x : Proposal). x.id) x))
      | inr y ↦ x ∙ sym y
    ]
  ];
  one_draft = λ p k at at_k d d' e. elim (Row-snoc_inv ps q at) [
    | inl r ↦ elim (Row-snoc_inv ps q at_k) [
      | inl r' ↦ s.one_draft p k r r' d d' e
      | inr y ↦ absurd (
          only p r d (ap (λ (x : Proposal). x.proposal_type) (sym y) ∙ d')
            (e ∙ ap (λ (x : Proposal). x.reference_id) y))
    ]
    | inr x ↦ elim (Row-snoc_inv ps q at_k) [
      | inl r' ↦ absurd (
          only k r' d' (ap (λ (x : Proposal). x.proposal_type) (sym x) ∙ d)
            (sym e ∙ ap (λ (x : Proposal). x.reference_id) x))
      | inr y ↦ x ∙ sym y
    ]
  ];
}
  where
    fresh : (p : Proposal) → Row p ps → p.id ≢ q.id
    fresh p r e = elim (Bool-cases (clashes q p)) [
      | inl c ↦ cc (sym free ∙ any-Row (clashes q) ps p r c)
      | inr c ↦ apart-id p q c e
    ]

-- A new draft with its version.
pub draft-IsSynced :
    (vs : List Version) (ps : List Proposal) (v : Version) (q : Proposal) {ws : List Version}
    {qs : List Proposal}
    → IsSynced vs ps
    → insert_version vs v ≡ ok ws
    → insert_proposal ps q ≡ ok qs
    → q.reference_id ≡ v.id
    → q.status ≡ "pending"
    → v.workflow_status ≡ some "proposed"
    → IsSynced ws qs
unfolding insert_version insert_proposal
draft-IsSynced vs ps v q {ws} {qs} s iv ip ref pending proposed =
    let (new_id, e) = required (not (any (λ (w : Version). str_eq w.id v.id) vs)) database _ iv in
    let (free, e') = required (not (any (clashes q) ps)) database _ ip in
    let fresh = status_of-new vs v (not-true (any (λ (w : Version). str_eq w.id v.id) vs) new_id) in
    let found_new : status_of (vs ++ v ∷ []) q.reference_id
        ≡ some (some (version_status q.status)) =
      ap (status_of (vs ++ v ∷ [])) ref
      ∙ (fresh.1
          ∙ (ap (λ (o : Option String). some o) proposed
              ∙ sym (ap (λ (k : String). some (some (version_status k))) pending))) in
    subst (λ (xs : List Version). IsSynced xs qs) (ok-injective e)
      (subst (IsSynced (vs ++ v ∷ [])) (ok-injective e') (
        append-IsSynced vs (vs ++ v ∷ []) ps q s
          (λ p r d. status_of-append vs v p.reference_id (s.agrees p r d)) (λ d. found_new)
          (λ p r d d' same.
            cc (sym fresh.0 ∙ (ap (status_of vs) (sym (same ∙ ref)) ∙ s.agrees p r d)))
          (not-true (any (clashes q) ps) free)))

-- A new row of another kind.
pub transition-IsSynced :
    (vs : List Version) (ps : List Proposal) (q : Proposal) {qs : List Proposal}
    → IsSynced vs ps
    → insert_proposal ps q ≡ ok qs
    → q.proposal_type ≢ "draft"
    → IsSynced vs qs
unfolding insert_proposal
transition-IsSynced vs ps q s ip other =
    let (free, e) = required (not (any (clashes q) ps)) database _ ip in
    subst (IsSynced vs) (ok-injective e) (
      append-IsSynced vs vs ps q s s.agrees (λ d. absurd (other d)) (λ p r d d'. absurd (other d'))
        (not-true (any (clashes q) ps) free))
