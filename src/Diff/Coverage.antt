-- ===== src/Diff/Coverage.antt =====
-- Each cached summary has its diff in the cache, whatever calls are made.
use mathlib.Core.Bool.{and-eq-true_iff}
use text.Mathlib.Text.{starts_with}
use mimir_backend.Prelude.Raises.{Result, ok, err}
use mimir_backend.Prelude.{
  String, ◌≡◌, refl, sym, ap, ◌∙◌, Bool, true, false, List, [], ◌∷◌, Option, none, some, arith, inl,
  inr, Bool-cases, eq_iff, all, if◌then◌else◌, str_eq,
}
use mimir_backend.Prelude.Dict
use mimir_backend.Prelude.Dict.{Dict, get-put}
use mimir_backend.Diff.Node.{DiffOptions}
use mimir_backend.Diff.Cache.{
  Error, Store, Version, Caches, DiffResult, DiffSummaryResponse, cache_key, fresh_diff,
  compute_diff, is_cached, cached_diff, store_diff, answer, default_options, with_versions,
  versions_to_compare, compute_diff_with_previous, compute_summary_only, store_summary,
  answer_summary, summary_response, summary_of_full, compute_summary_with_previous, prefix_of,
  invalidate_cache_for_document,
}
use mimir_backend.Diff.Caching.{compute_diff-stores}
use mimir_backend.Diff.Keys.{has_no_colon}
use mimir_backend.Diff.Named.{IsNamed, compute_diff-IsNamed, drop_keys-IsNamed}
use mimir_backend.Diff.Invalidated.{IsCovered, invalidate-get}
use mimir_backend.Diff.Operations.{
  Operation, diff, diff_previous, summary, summary_previous, invalidate, document_of, after,
  after_all, no_caches,
}

store_diff-IsCovered :
    (o : DiffOptions) (key : String) (r : Result Error DiffResult) (c : Caches)
    → IsCovered c
    → IsCovered (store_diff o key r c).1
store_diff-IsCovered o key (err e) c v k h = v k h
store_diff-IsCovered o key (ok r) c v k h = elim (Bool-cases (is_cached o)) [
  | inl e ↦ rw e (v k (ground (arith, get-put c.diffs key r k)))
  | inr e ↦ rw e (v k (rw e at h))
]

answer-IsCovered :
    (o : DiffOptions) (key : String) (f : Option DiffResult) (r : Result Error DiffResult)
    (c : Caches)
    → IsCovered c
    → IsCovered (answer o key f r c).1
answer-IsCovered o key (some x) r c v = v
answer-IsCovered o key none r c v = store_diff-IsCovered o key r c v

pub compute_diff-IsCovered :
    (s : Store) (o : DiffOptions) (d a b : String) (c : Caches)
    → IsCovered c
    → IsCovered (compute_diff s o d a b c).1
unfolding compute_diff
compute_diff-IsCovered s o d a b c v = elim (Bool-cases (str_eq a b)) [
  | inl e ↦ rw e v
  | inr e ↦ rw e (
      answer-IsCovered o (cache_key d a b) (cached_diff o (cache_key d a b) c)
        (fresh_diff s o d a b) c v)
]

store_summary-IsCovered :
    (key : String) (r : Result Error DiffResult) (c : Caches) (x : DiffResult)
    → Dict.get c.diffs key ≡ some x
    → IsCovered c
    → IsCovered (store_summary key (r, c)).1
store_summary-IsCovered key (err e) c x known v k h = v k h
store_summary-IsCovered key (ok full) c x known v k h =
    ground (arith, get-put c.summaries key (summary_response full) k, eq_iff key k, v k)

answer_summary-IsCovered :
    (key : String) (f : Option DiffSummaryResponse) (computed : Result Error DiffResult × Caches)
    (c : Caches)
    → ((r : DiffResult)
        → computed.0 ≡ ok r
        → (x : DiffResult) × (Dict.get computed.1.diffs key ≡ some x))
    → IsCovered computed.1
    → IsCovered c
    → IsCovered (answer_summary f (store_summary key computed) c).1
answer_summary-IsCovered key (some r) computed c known w v = v
answer_summary-IsCovered key none (err e, c') c known w v = w
answer_summary-IsCovered key none (ok r, c') c known w v =
    let (x, e) = known r refl in store_summary-IsCovered key (ok r) c' x e w

kept :
    {V W : Type 0} (b : Bool) {o : Option V} {t : Option W}
    → (if b then none else o) ≡ none
    → (o ≡ none → t ≡ none)
    → (if b then none else t) ≡ none
kept true e h = refl
kept false e h = h e

different :
    (s : Store) (d a b : String) (c : Caches) (r : DiffResult)
    → (compute_diff s default_options d a b c).0 ≡ ok r
    → str_eq a b ≡ false
unfolding compute_diff
different s d a b c r h = elim (Bool-cases (str_eq a b)) [
  | inl e ↦ absurd (cc (rw e at h))
  | inr e ↦ e
]

invalidate-IsCovered :
    (d : String) (c : Caches) → IsCovered c → IsCovered (invalidate_cache_for_document d c)
invalidate-IsCovered d c v k h =
    let (diffs, summaries) = invalidate-get d c k v in
    summaries ∙ kept (starts_with k (prefix_of d)) (sym diffs ∙ h) (v k)

-- What every call keeps.
abbrev Kept : Caches → Type 0
Kept c = IsCovered c × IsNamed c

-- Storing a summary leaves the diffs as they are.
answer_summary-IsNamed :
    (key : String) (f : Option DiffSummaryResponse) (computed : Result Error DiffResult × Caches)
    (c : Caches)
    → IsNamed computed.1
    → IsNamed c
    → IsNamed (answer_summary f (store_summary key computed) c).1
answer_summary-IsNamed key (some r) computed c w v = v
answer_summary-IsNamed key none (err e, c') c w v = w
answer_summary-IsNamed key none (ok r, c') c w v = w

with_versions-Kept :
    (s : Store) (o : DiffOptions) (d : String) (r : Result Error (Version × Version)) (c : Caches)
    → has_no_colon d ≡ true
    → Kept c
    → Kept (with_versions s o d r c).1
with_versions-Kept s o d (err e) c plain v = v
with_versions-Kept s o d (ok (a, b)) c plain (covered, named) = (
  compute_diff-IsCovered s o d a.id b.id c covered,
  compute_diff-IsNamed s o d a.id b.id c plain named,
)

summary-Kept :
    (s : Store) (d a b : String) (c : Caches)
    → has_no_colon d ≡ true
    → Kept c
    → Kept (compute_summary_only s d a b c).1
unfolding compute_summary_only
summary-Kept s d a b c plain (covered, named) = (
  answer_summary-IsCovered (cache_key d a b) (Dict.get c.summaries (cache_key d a b))
      (compute_diff s default_options d a b c) c
      (λ (r : DiffResult) (h : (compute_diff s default_options d a b c).0 ≡ ok r).
        (r, compute_diff-stores s d a b c r (different s d a b c r h) h))
      (compute_diff-IsCovered s default_options d a b c covered) covered,
  answer_summary-IsNamed (cache_key d a b) (Dict.get c.summaries (cache_key d a b))
      (compute_diff s default_options d a b c) c
      (compute_diff-IsNamed s default_options d a b c plain named) named,
)

-- The summary of a diff that is in the cache under the key of its own versions.
summary_of_full-Kept :
    (d : String) (p : Result Error DiffResult × Caches)
    → ((full : DiffResult)
        → p.0 ≡ ok full
        → Dict.get p.1.diffs (cache_key d full.version_a.id full.version_b.id) ≡ some full)
    → Kept p.1
    → Kept (summary_of_full d p).1
summary_of_full-Kept d (err e, c) known v = v
summary_of_full-Kept d (ok full, c) known (covered, named) =
    let key = cache_key d full.version_a.id full.version_b.id in
    (
      answer_summary-IsCovered key (Dict.get c.summaries key) (ok full, c) c
          (λ (r : DiffResult) (h : ◌≡◌ {A = Result Error DiffResult} (ok full) (ok r)).
            (full, known full refl))
          covered covered,
      answer_summary-IsNamed key (Dict.get c.summaries key) (ok full, c) c named named,
    )

summary_previous-Kept :
    (s : Store) (d : String) (r : Result Error (Version × Version)) (c : Caches)
    → has_no_colon d ≡ true
    → Kept c
    → Kept (summary_of_full d (with_versions s default_options d r c)).1
summary_previous-Kept s d (err e) c plain v = v
summary_previous-Kept s d (ok (a, b)) c plain v =
    let (covered, named) = with_versions-Kept s default_options d (ok (a, b)) c plain v in
    summary_of_full-Kept d (compute_diff s default_options d a.id b.id c)
      (λ (full : DiffResult) (h : (compute_diff s default_options d a.id b.id c).0 ≡ ok full).
        let stored =
          compute_diff-stores s d a.id b.id c full (different s d a.id b.id c full h) h in
        ap (Dict.get (compute_diff s default_options d a.id b.id c).1.diffs)
          (named d a.id b.id full plain stored)
        ∙ stored)
      (covered, named)

after-Kept :
    (x : Operation) (c : Caches) → has_no_colon (document_of x) ≡ true → Kept c → Kept (after x c)
unfolding compute_diff_with_previous compute_summary_with_previous invalidate_cache_for_document
after-Kept (diff s o d a b) c plain (covered, named) =
    (compute_diff-IsCovered s o d a b c covered, compute_diff-IsNamed s o d a b c plain named)
after-Kept (diff_previous s o d v) c plain k =
    with_versions-Kept s o d (versions_to_compare s d v) c plain k
after-Kept (summary s d a b) c plain k = summary-Kept s d a b c plain k
after-Kept (summary_previous s d v) c plain k =
    summary_previous-Kept s d (versions_to_compare s d v) c plain k
after-Kept (invalidate d) c plain (covered, named) =
    (invalidate-IsCovered d c covered, drop_keys-IsNamed _ c named)

after_all-Kept :
    (xs : List Operation) (c : Caches)
    → all (λ (x : Operation). has_no_colon (document_of x)) xs ≡ true
    → Kept c
    → Kept (after_all xs c)
after_all-Kept [] c plain k = k
after_all-Kept (x ∷ xs) c plain k =
    let (here, there) =
      (and-eq-true_iff (has_no_colon (document_of x))
          (all (λ (y : Operation). has_no_colon (document_of y)) xs)).0
        plain in
    after_all-Kept xs (after x c) there (after-Kept x c here k)

no_caches-Kept : Kept no_caches
unfolding Dict.get
no_caches-Kept = (λ k h. refl, λ d a b r plain h. absurd (cc h))

-- The caches start empty. After any diffs, diffs with the previous version, summaries, summaries with
-- the previous version and invalidations, in any order, whatever the database holds at each of them
-- and whether they return a result or an error: if the ids of their documents hold no colon, every
-- cached summary has its diff in the cache. (A diff need not have its summary there.)
pub operations-IsCovered :
    (xs : List Operation)
    → all (λ (x : Operation). has_no_colon (document_of x)) xs ≡ true
    → IsCovered (after_all xs no_caches)
operations-IsCovered xs plain = (after_all-Kept xs no_caches plain no_caches-Kept).0
