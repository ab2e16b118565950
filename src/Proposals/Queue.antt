-- ===== src/Proposals/Queue.antt =====
-- The writes to the queue of app/services/agent_proposal_service.py keep it in step with the versions.
use mathlib.Core.Path.{subst}
use mimir_backend.Prelude.{
  ℕ, String, true, false, not, ◌||◌, List, [], ◌∷◌, map, Option, none, some, ◌≡◌, refl, sym, ap,
  ◌∙◌, inl, inr, Bool-cases, if◌then◌else◌, str_eq, eq_iff,
}
use mimir_backend.Prelude.Rows.{Row, find?-Row}
use mimir_backend.Workflow.Store.{Version}
use mimir_backend.Proposals.Store.{
  Proposal, Tables, set_status, is_pending, reviewed_row, withdrawn_row, reopened_row, is_some,
}
use mimir_backend.Proposals.Service.{rollback_row, rollback_all, get_proposal, joined_status}
use mimir_backend.Proposals.Synced.{
  IsSynced, Agrees, status_of, version_status, map-IsSynced, review-Agrees, status_of-set_self,
  status_of-set_other,
}

module _ (draft_id s reviewer_id : String) (notes : Option String) (now : ℕ) (p : Proposal) where
  abbrev row : Proposal
  row = reviewed_row draft_id s reviewer_id notes now p

  reviewed_row-kept :
      (row.id ≡ p.id) × (row.proposal_type ≡ p.proposal_type) × (row.reference_id ≡ p.reference_id)
  reviewed_row-kept = elim (Bool-cases (is_pending draft_id p)) [
    | inl e ↦ rw e (refl, refl, refl)
    | inr e ↦ rw e (refl, refl, refl)
  ]

pub review-IsSynced :
    (vs : List Version) (ps : List Proposal) (draft_id s reviewer_id : String)
    (notes : Option String) (now : ℕ)
    → IsSynced vs ps
    → status_of vs draft_id ≡ some (some "proposed")
    → version_status s ≡ s
    → IsSynced (set_status vs draft_id s) (map (reviewed_row draft_id s reviewer_id notes now) ps)
review-IsSynced vs ps draft_id s reviewer_id notes now synced before final =
    let g = reviewed_row draft_id s reviewer_id notes now in
    map-IsSynced vs (set_status vs draft_id s) ps g synced
      (λ p. (reviewed_row-kept draft_id s reviewer_id notes now p).0)
      (λ p. (reviewed_row-kept draft_id s reviewer_id notes now p).1)
      (λ p. (reviewed_row-kept draft_id s reviewer_id notes now p).2)
      (review-Agrees vs ps draft_id s g synced before final (λ p e. rw e refl)
        (λ p. (reviewed_row-kept draft_id s reviewer_id notes now p).2) (λ p e. rw e refl))

withdrawn_row-kept :
    (draft_id : String) (now : ℕ) (p : Proposal)
    → ((withdrawn_row draft_id now p).id ≡ p.id)
      × ((withdrawn_row draft_id now p).proposal_type ≡ p.proposal_type)
      × ((withdrawn_row draft_id now p).reference_id ≡ p.reference_id)
withdrawn_row-kept draft_id now p = elim (Bool-cases (is_pending draft_id p)) [
  | inl e ↦ rw e (refl, refl, refl)
  | inr e ↦ rw e (refl, refl, refl)
]

pub withdraw-IsSynced :
    (vs : List Version) (ps : List Proposal) (draft_id : String) (now : ℕ)
    → IsSynced vs ps
    → status_of vs draft_id ≡ some (some "proposed")
    → IsSynced (set_status vs draft_id "withdrawn") (map (withdrawn_row draft_id now) ps)
withdraw-IsSynced vs ps draft_id now synced before =
    map-IsSynced vs (set_status vs draft_id "withdrawn") ps (withdrawn_row draft_id now) synced
      (λ p. (withdrawn_row-kept draft_id now p).0) (λ p. (withdrawn_row-kept draft_id now p).1)
      (λ p. (withdrawn_row-kept draft_id now p).2)
      (review-Agrees vs ps draft_id "withdrawn" (withdrawn_row draft_id now) synced before refl
        (λ p e. rw e refl) (λ p. (withdrawn_row-kept draft_id now p).2) (λ p e. rw e refl))

reopened_row-kept :
    (pid : String) (now : ℕ) (p : Proposal)
    → ((reopened_row pid now p).id ≡ p.id)
      × ((reopened_row pid now p).proposal_type ≡ p.proposal_type)
      × ((reopened_row pid now p).reference_id ≡ p.reference_id)
reopened_row-kept pid now p = elim (Bool-cases (str_eq p.id pid)) [
  | inl e ↦ rw e (refl, refl, refl)
  | inr e ↦ rw e (refl, refl, refl)
]

-- The versions after a rollback of the row.
abbrev reopened_versions : List Version → Proposal → List Version
reopened_versions vs p =
    if str_eq p.proposal_type "draft" then set_status vs p.reference_id "proposed" else vs

reopened_versions-draft :
    (vs : List Version) (p : Proposal)
    → p.proposal_type ≡ "draft"
    → reopened_versions vs p ≡ set_status vs p.reference_id "proposed"
reopened_versions-draft vs p d =
    let is : str_eq p.proposal_type "draft" ≡ true = (eq_iff p.proposal_type "draft").1 d in
    rw is refl

module _ (vs : List Version) (ps : List Proposal) (pid : String) (now : ℕ) (p q : Proposal)
    (synced : IsSynced vs ps) where
  -- The row that is reopened.
  same-Agrees :
      Row p ps
      → p.id ≡ pid
      → Row q ps
      → q.proposal_type ≡ "draft"
      → str_eq q.id pid ≡ true
      → Agrees (reopened_versions vs p) (reopened_row pid now q)
  same-Agrees at i at_q d same e =
      let one = synced.one_id q p at_q at ((eq_iff q.id pid).0 same ∙ sym i) in
      let draft = ap (λ (k : Proposal). k.proposal_type) (sym one) ∙ d in
      let ref = (reopened_row-kept pid now q).2 ∙ ap (λ (k : Proposal). k.reference_id) one in
      let status : (reopened_row pid now q).status ≡ "pending" = rw same refl in
      ap (λ (ws : List Version). status_of ws (reopened_row pid now q).reference_id)
        (reopened_versions-draft vs p draft)
      ∙ (ap (status_of (set_status vs p.reference_id "proposed")) ref
          ∙ (status_of-set_self vs p.reference_id "proposed" (synced.agrees p at draft)
              ∙ sym (ap (λ (k : String). some (some (version_status k))) status)))

  -- Another draft's version is not touched.
  other-versions :
      Row p ps
      → p.id ≡ pid
      → Row q ps
      → q.proposal_type ≡ "draft"
      → str_eq q.id pid ≡ false
      → status_of (reopened_versions vs p) q.reference_id ≡ status_of vs q.reference_id
  other-versions at i at_q d other = elim (Bool-cases (str_eq p.proposal_type "draft")) [
    | inr no_draft ↦ rw no_draft refl
    | inl draft ↦ elim (Bool-cases (str_eq p.reference_id q.reference_id)) [
      | inr apart ↦
          ap (λ (ws : List Version). status_of ws q.reference_id)
            (reopened_versions-draft vs p ((eq_iff p.proposal_type "draft").0 draft))
          ∙ status_of-set_other vs p.reference_id "proposed" q.reference_id apart
      | inl shared ↦
          let one =
            synced.one_draft p q at at_q ((eq_iff p.proposal_type "draft").0 draft) d
              ((eq_iff p.reference_id q.reference_id).0 shared) in
          absurd (cc (sym other ∙ (eq_iff q.id pid).1 (ap (λ (k : Proposal). k.id) (sym one) ∙ i)))
    ]
  ]

  reopen-Agrees :
      Row p ps
      → p.id ≡ pid
      → Row q ps
      → q.proposal_type ≡ "draft"
      → Agrees (reopened_versions vs p) (reopened_row pid now q)
  reopen-Agrees at i at_q d e = elim (Bool-cases (str_eq q.id pid)) [
    | inl same ↦ same-Agrees at i at_q d same e
    | inr other ↦
        let left : q ≡ reopened_row pid now q = rw other refl in
        subst
          (λ (k : Proposal).
            status_of (reopened_versions vs p) k.reference_id
            ≡ some (some (version_status k.status)))
          left (other-versions at i at_q d other ∙ synced.agrees q at_q d)
  ]

reopen-IsSynced :
    (vs : List Version) (ps : List Proposal) (pid : String) (now : ℕ) (p : Proposal)
    → IsSynced vs ps
    → Row p ps
    → p.id ≡ pid
    → IsSynced (reopened_versions vs p) (map (reopened_row pid now) ps)
reopen-IsSynced vs ps pid now p synced at i =
    map-IsSynced vs (reopened_versions vs p) ps (reopened_row pid now) synced
      (λ q. (reopened_row-kept pid now q).0) (λ q. (reopened_row-kept pid now q).1)
      (λ q. (reopened_row-kept pid now q).2)
      (λ q at_q d. reopen-Agrees vs ps pid now p q synced at i at_q d)

pub rollback_row-IsSynced :
    (t : Tables) (pid rollback_from reviewer_id actor_type : String) (now : ℕ)
    (found_row : Option Proposal)
    → IsSynced t.versions t.proposals
    → get_proposal t.proposals pid ≡ found_row
    → IsSynced
        (rollback_row t pid rollback_from reviewer_id actor_type now found_row).0.versions
        (rollback_row t pid rollback_from reviewer_id actor_type now found_row).0.proposals
unfolding rollback_row
rollback_row-IsSynced t pid rollback_from reviewer_id actor_type now none synced h = synced
rollback_row-IsSynced t pid rollback_from reviewer_id actor_type now (some p) synced h =
    let (at, e) = find?-Row (λ (q : Proposal). str_eq q.id pid) t.proposals p h in
    let done = reopen-IsSynced t.versions t.proposals pid now p synced at ((eq_iff p.id pid).0 e) in
    elim (Bool-cases
      (not (str_eq p.status rollback_from) || is_some (joined_status t.versions p) "committed")) [
        | inl skip ↦ rw skip synced
        | inr go ↦ rw go done
      ]

pub rollback_all-IsSynced :
    (t : Tables) (pids : List String) (rollback_from reviewer_id actor_type : String) (now : ℕ)
    → IsSynced t.versions t.proposals
    → IsSynced
        (rollback_all t pids rollback_from reviewer_id actor_type now).0.versions
        (rollback_all t pids rollback_from reviewer_id actor_type now).0.proposals
unfolding rollback_all
rollback_all-IsSynced t [] rollback_from reviewer_id actor_type now synced = synced
rollback_all-IsSynced t (pid ∷ pids) rollback_from reviewer_id actor_type now synced =
    rollback_all-IsSynced
      (rollback_row t pid rollback_from reviewer_id actor_type now (get_proposal t.proposals pid)).0
      pids rollback_from reviewer_id actor_type now
      (rollback_row-IsSynced t pid rollback_from reviewer_id actor_type now
        (get_proposal t.proposals pid) synced refl)
