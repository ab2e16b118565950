-- ===== src/Proposals/Synced.antt =====
-- The queue and the versions agree, for app/services/agent_proposal_service.py.
use mathlib.Core.Path.{subst}
use mathlib.Core.Option
use mathlib.Core.Bool.{and-eq-true_iff}
use mimir_backend.Prelude.{
  String, true, false, ◌&&◌, List, [], ◌∷◌, map, Option, some, ◌≡◌, ◌≢◌, refl, sym, ap, ◌∙◌, inl,
  inr, arith, Bool-cases, if◌then◌else◌, str_eq, eq_iff, eq_refl,
}
use mimir_backend.Prelude.Rows.{Row, Row-map_inv}
use mimir_backend.Workflow.Store.{Version}
use mimir_backend.Proposals.Store.{Proposal, get_version, set_status, is_pending}

-- The workflow status of a version that is there.
abbrev pub status_of : List Version → String → Option (Option String)
status_of vs version_id =
    Option.map (λ (v : Version). v.workflow_status) (get_version vs version_id)

-- The status of a version whose row in the queue has the status.
abbrev pub version_status : String → String
version_status s =
    if str_eq s "pending"
    then "proposed"
    else if str_eq s "approved"
    then "approved"
    else if str_eq s "rejected"
    then "rejected"
    else "withdrawn"

-- A draft's row agrees with the draft's version.
abbrev pub Agrees : List Version → Proposal → Type 0
Agrees vs p =
    p.proposal_type ≡ "draft" → status_of vs p.reference_id ≡ some (some (version_status p.status))

-- Each draft's row in the queue agrees with its version, and no two rows share an id, nor two
-- drafts' rows a version.
pub record IsSynced (vs : List Version) (ps : List Proposal) : Type 0 where
  pub agrees : (p : Proposal) → Row p ps → Agrees vs p
  pub one_id : (p q : Proposal) → Row p ps → Row q ps → p.id ≡ q.id → p ≡ q
  pub one_draft :
      (p q : Proposal)
      → Row p ps
      → Row q ps
      → p.proposal_type ≡ "draft"
      → q.proposal_type ≡ "draft"
      → p.reference_id ≡ q.reference_id
      → p ≡ q

-- An update of one version's status, as the others see it.
pub status_of-set_status :
    (vs : List Version) (i s j : String)
    → status_of (set_status vs i s) j ≡ (
        if str_eq i j
        then Option.map (λ (o : Option String). some s) (status_of vs j)
        else status_of vs j)
status_of-set_status [] i s j = ground arith
status_of-set_status (v ∷ vs) i s j =
    ground (arith, status_of-set_status vs i s j, eq_iff i j, eq_iff v.id i, eq_iff v.id j)

-- A change of the rows that keeps what they are about keeps the queue in step.
pub map-IsSynced :
    (vs ws : List Version) (ps : List Proposal) (g : Proposal → Proposal)
    → IsSynced vs ps
    → ((p : Proposal) → (g p).id ≡ p.id)
    → ((p : Proposal) → (g p).proposal_type ≡ p.proposal_type)
    → ((p : Proposal) → (g p).reference_id ≡ p.reference_id)
    → ((p : Proposal) → Row p ps → p.proposal_type ≡ "draft" → Agrees ws (g p))
    → IsSynced ws (map g ps)
map-IsSynced vs ws ps g s same_id same_type same_ref agrees = record {
  agrees = λ p' at' e.
      let (p, at, q) = Row-map_inv g ps at' in
      subst (Agrees ws) (sym q)
        (agrees p at (sym (same_type p) ∙ (ap (λ (k : Proposal). k.proposal_type) (sym q) ∙ e))) e;
  one_id = λ p' q' at at' e.
      let (p, r, x) = Row-map_inv g ps at in
      let (q, r', y) = Row-map_inv g ps at' in
      let back =
        sym (same_id p)
        ∙ (ap (λ (k : Proposal). k.id) (sym x)
            ∙ (e ∙ (ap (λ (k : Proposal). k.id) y ∙ same_id q))) in
      x ∙ (ap g (s.one_id p q r r' back) ∙ sym y);
  one_draft = λ p' q' at at' d d' e.
      let (p, r, x) = Row-map_inv g ps at in
      let (q, r', y) = Row-map_inv g ps at' in
      let type_p = sym (same_type p) ∙ (ap (λ (k : Proposal). k.proposal_type) (sym x) ∙ d) in
      let type_q = sym (same_type q) ∙ (ap (λ (k : Proposal). k.proposal_type) (sym y) ∙ d') in
      let back =
        sym (same_ref p)
        ∙ (ap (λ (k : Proposal). k.reference_id) (sym x)
            ∙ (e ∙ (ap (λ (k : Proposal). k.reference_id) y ∙ same_ref q))) in
      x ∙ (ap g (s.one_draft p q r r' type_p type_q back) ∙ sym y);
}

pub pending-reference :
    (draft_id : String) (p : Proposal) → is_pending draft_id p ≡ true → p.reference_id ≡ draft_id
pending-reference draft_id p h =
    (eq_iff p.reference_id draft_id).0
      ((and-eq-true_iff (str_eq p.reference_id draft_id) (str_eq p.proposal_type "draft")).0
        ((and-eq-true_iff (str_eq p.reference_id draft_id && str_eq p.proposal_type "draft")
            (str_eq p.status "pending")).0
          h).0).0

pub status_of-set_self :
    (vs : List Version) (i s : String) {o : Option String}
    → status_of vs i ≡ some o
    → status_of (set_status vs i s) i ≡ some (some s)
status_of-set_self vs i s h = status_of-set_status vs i s i ∙ rw (eq_refl i, h) refl

pub status_of-set_other :
    (vs : List Version) (i s j : String)
    → str_eq i j ≡ false
    → status_of (set_status vs i s) j ≡ status_of vs j
status_of-set_other vs i s j e = status_of-set_status vs i s j ∙ rw e refl

-- Only a pending row stands for a proposed version.
version_status-proposed : (s : String) → version_status s ≡ "proposed" → str_eq s "pending" ≡ true
version_status-proposed s h = elim (Bool-cases (str_eq s "pending")) [
  | inl e ↦ e
  | inr e ↦ elim (Bool-cases (str_eq s "approved")) [
    | inl e' ↦ absurd (unlike "approved" refl (rw (e, e') at h))
    | inr e' ↦ elim (Bool-cases (str_eq s "rejected")) [
      | inl e'' ↦ absurd (unlike "rejected" refl (rw (e, e', e'') at h))
      | inr e'' ↦ absurd (unlike "withdrawn" refl (rw (e, e', e'') at h))
    ]
  ]
]
  where
    unlike : (k : String) → str_eq k "proposed" ≡ false → k ≢ "proposed"
    unlike k e same = cc (sym e ∙ (eq_iff k "proposed").1 same)

other-Agrees :
    (vs : List Version) (draft_id s : String) (p : Proposal)
    → status_of vs draft_id ≡ some (some "proposed")
    → is_pending draft_id p ≡ false
    → p.proposal_type ≡ "draft"
    → status_of vs p.reference_id ≡ some (some (version_status p.status))
    → status_of (set_status vs draft_id s) p.reference_id ≡ some (some (version_status p.status))
other-Agrees vs draft_id s p before not_it d agrees =
    elim (Bool-cases (str_eq draft_id p.reference_id)) [
      | inr e ↦ status_of-set_other vs draft_id s p.reference_id e ∙ agrees
      | inl e ↦
          let same = (eq_iff draft_id p.reference_id).0 e in
          let twice : some (some (version_status p.status)) ≡ some (some "proposed") =
            sym agrees ∙ (ap (status_of vs) (sym same) ∙ before) in
          let status =
            version_status-proposed p.status
              (Option.some-injective _ _ (Option.some-injective _ _ twice)) in
          let ref : str_eq p.reference_id draft_id ≡ true =
            (eq_iff p.reference_id draft_id).1 (sym same) in
          let is : is_pending draft_id p ≡ true = rw (ref, d, status) refl in
          absurd (cc (sym not_it ∙ is))
    ]

-- The rows that a review of a proposed draft changes, and those it leaves, agree with the versions
-- afterwards.
pub review-Agrees :
    (vs : List Version) (ps : List Proposal) (draft_id s : String) (g : Proposal → Proposal)
    → IsSynced vs ps
    → status_of vs draft_id ≡ some (some "proposed")
    → version_status s ≡ s
    → ((p : Proposal) → is_pending draft_id p ≡ true → (g p).status ≡ s)
    → ((p : Proposal) → (g p).reference_id ≡ p.reference_id)
    → ((p : Proposal) → is_pending draft_id p ≡ false → g p ≡ p)
    → (p : Proposal) → Row p ps
    → p.proposal_type ≡ "draft"
    → Agrees (set_status vs draft_id s) (g p)
review-Agrees vs ps draft_id s g synced before final done same_ref left p at d e =
    elim (Bool-cases (is_pending draft_id p)) [
      | inl is ↦
          let ref : (g p).reference_id ≡ draft_id = same_ref p ∙ pending-reference draft_id p is in
          ap (status_of (set_status vs draft_id s)) ref
          ∙ (status_of-set_self vs draft_id s before
              ∙ sym (
                  ap (λ (k : String). some (some (version_status k))) (done p is)
                  ∙ ap (λ (k : String). some (some k)) final))
      | inr not_it ↦
          subst
            (λ (k : Proposal).
              status_of (set_status vs draft_id s) k.reference_id
              ≡ some (some (version_status k.status)))
            (sym (left p not_it))
            (other-Agrees vs draft_id s p before not_it d (synced.agrees p at d))
    ]
