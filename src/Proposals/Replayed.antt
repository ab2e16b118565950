-- ===== src/Proposals/Replayed.antt =====
-- A draft that is proposed again with its idempotency key: `propose_draft` of
-- app/services/agent_proposal_service.py.
use mathlib.Core.Path.{subst}
use mimir_backend.Prelude.{
  ℕ, String, Bool, true, not, List, [], ◌∷◌, ◌++◌, Option, none, some, ◌≡◌, refl, sym, ap, ◌∙◌, inl,
  inr, Bool-cases, Option-cases, find?, any, eq_refl, truthy,
}
use mimir_backend.Prelude.Raises.{ok, required, returned, ok-injective}
use mimir_backend.Workflow.Store.{Version}
use mimir_backend.Proposals.Store.{
  Agent, database, Proposal, Tables, get_version, clashes, insert_proposal, insert_version,
}
use mimir_backend.Proposals.Service.{assert_agent_active}
use mimir_backend.Proposals.Propose.{
  NewIds, Reply, draft_document, draft_version, queue_row, create_draft, has_key, joined_reply,
  version_reply, lookup_idempotent_proposal, known_reply, propose_draft,
}

find?-snoc :
    (p : Proposal → Bool) (ps : List Proposal) (q : Proposal)
    → find? p ps ≡ none
    → p q ≡ true
    → find? p (ps ++ q ∷ []) ≡ some q
find?-snoc p [] q h e = rw e refl
find?-snoc p (r ∷ ps) q h e = elim (Bool-cases (p r)) [
  | inl yes' ↦ absurd (cc (rw yes' at h))
  | inr no' ↦ rw no' (find?-snoc p ps q (rw no' at h) e)
]

joined_reply-none : (vs : List Version) (o : Option Proposal) → joined_reply vs o ≡ none → o ≡ none
joined_reply-none vs none h = refl
joined_reply-none vs (some p) h = absurd (cc h)

version_reply-draft_id :
    (p : Proposal) (o : Option Version) → (version_reply p o).draft_id ≡ p.reference_id
version_reply-draft_id p none = refl
version_reply-draft_id p (some v) = refl

-- The second of two proposals with one key, when the first was created.
created-known :
    (t u : Tables) (ids : NewIds) (agent_id key : String)
    (document_id document_type_id : Option String) (now : ℕ) (reply : Reply)
    → truthy (some key) ≡ true
    → known_reply t agent_id (some key) ≡ none
    → create_draft t ids agent_id document_id document_type_id (some key) now ≡ ok (u, reply)
    → (again : Reply) × (known_reply u agent_id (some key) ≡ some again)
      × (again.draft_id ≡ reply.draft_id)
      × (u.agents ≡ t.agents)
unfolding create_draft lookup_idempotent_proposal insert_proposal
created-known t u ids agent_id key document_id document_type_id now reply some_key unknown h =
    let row = queue_row ids.proposal agent_id "draft" ids.version (some key) now in
    let (document, _, h1) = returned (draft_document t ids document_id document_type_id now) _ h in
    let (vs, _, h2) =
      returned (insert_version t.versions (draft_version t.versions ids document.1)) _ h1 in
    let (ps, ip, last) = returned (insert_proposal t.proposals row) _ h2 in
    let e = ok-injective last in
    let (_, added) = required (not (any (clashes row) t.proposals)) database _ ip in
    let absent =
      joined_reply-none t.versions (find? (has_key agent_id key) t.proposals)
        (rw some_key at unknown) in
    let keyed : has_key agent_id key row ≡ true = rw (eq_refl agent_id, eq_refl key) refl in
    let there : find? (has_key agent_id key) u.proposals ≡ some row =
      ap (λ (r : Tables × Reply). find? (has_key agent_id key) r.0.proposals) (sym e)
      ∙ (ap (find? (has_key agent_id key)) (sym (ok-injective added))
          ∙ find?-snoc (has_key agent_id key) t.proposals row absent keyed) in
    (
      version_reply row (get_version u.versions ids.version),
      rw some_key (ap (joined_reply u.versions) there),
      version_reply-draft_id row (get_version u.versions ids.version)
          ∙ ap (λ (r : Tables × Reply). r.1.draft_id) e,
      ap (λ (r : Tables × Reply). r.0.agents) (sym e),
    )

-- An accepted proposal of a draft with a key, made again by the same agent with any other content,
-- is accepted, answers with the draft of the first one, and changes nothing.
pub propose_draft-replayed :
    (t u : Tables) (ids ids' : NewIds) (agent_id key : String)
    (document_id document_type_id document_id' document_type_id' : Option String) (now now' : ℕ)
    (reply : Reply)
    → truthy (some key) ≡ true
    → propose_draft t ids agent_id document_id document_type_id (some key) now ≡ ok (u, reply)
    → (again : Reply) × (propose_draft u ids' agent_id document_id' document_type_id'
          (some key)
          now'
        ≡ ok (u, again))
      × (again.draft_id ≡ reply.draft_id)
unfolding propose_draft
propose_draft-replayed t u ids ids' agent_id key document_id document_type_id document_id'
      document_type_id' now now' reply some_key h =
    let (a, active, h1) = returned (assert_agent_active t.agents agent_id) _ h in
    elim (Option-cases (known_reply t agent_id (some key))) [
      | inr (known, e) ↦
          let h2 = ok-injective (rw e at h1) in
          let same = ap (λ (r : Tables × Reply). r.0) h2 in
          (
            known,
            subst
                (λ (w : Tables).
                  propose_draft w ids' agent_id document_id' document_type_id' (some key) now'
                  ≡ ok (w, known))
                same (rw (active, e) refl),
            ap (λ (r : Tables × Reply). r.1.draft_id) h2,
          )
      | inl e ↦
          let (again, known, draft, agents) =
            created-known t u ids agent_id key document_id document_type_id now reply some_key e
              (rw e at h1) in
          let active' : assert_agent_active u.agents agent_id ≡ ok a =
            ap (λ (as' : List Agent). assert_agent_active as' agent_id) agents ∙ active in
          (again, rw (active', known) refl, draft)
    ]
