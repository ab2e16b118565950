-- ===== src/Diff/Fresh.antt =====
-- After an invalidation the diff service computes its answers anew.
use Prim.Native.String.{◌++◌ as ◌+++◌}
use text.Mathlib.Text.{starts_with}
use text.Mathlib.TextLemmas.{append_assoc as text_append_assoc}
use text.Mathlib.TextPositions.{starts_with-append}
use mimir_backend.Prelude.Raises.{Result, ok, err}
use mimir_backend.Prelude.{String, List, all, ◌≡◌, refl, ap, sym, ◌∙◌, true, false, none, str_eq}
use mimir_backend.Prelude.Dict
use mimir_backend.Prelude.Order.{sorted_pair}
use mimir_backend.Diff.Cache.{
  Error, Store, Caches, DiffResult, DiffSummaryResponse, cache_key, prefix_of, fresh_diff,
  compute_diff, answer, default_options, compute_summary_only, store_summary, answer_summary,
  summary_response, invalidate_cache_for_document,
}
use mimir_backend.Diff.Invalidated.{IsCovered, invalidate-get}
use mimir_backend.Diff.Coverage.{operations-IsCovered}
use mimir_backend.Diff.Keys.{has_no_colon}
use mimir_backend.Diff.Operations.{Operation, document_of, after_all, no_caches}

-- Each key of a document has the prefix by which its invalidation finds the keys.
starts_with-cache_key : (d a b : String) → starts_with (cache_key d a b) (prefix_of d) ≡ true
unfolding cache_key
starts_with-cache_key d a b =
    let (x, y) = sorted_pair a b in
    let same : prefix_of d +++ (x +++ (":" +++ y))
        ≡ "diff:" +++ (d +++ (":" +++ (x +++ (":" +++ y)))) =
      text_append_assoc "diff:" (d +++ ":") (x +++ (":" +++ y))
      ∙ ap ("diff:" +++◌) (text_append_assoc d ":" (x +++ (":" +++ y))) in
    ap (λ (k : String). starts_with k (prefix_of d)) (sym same)
    ∙ starts_with-append (prefix_of d) (x +++ (":" +++ y))

abbrev pub summarised : Result Error DiffResult → Result Error DiffSummaryResponse
summarised (ok r) = ok (summary_response r)
summarised (err e) = err e

answer-new :
    (key : String) (fresh : Result Error DiffResult) (c : Caches)
    → (answer default_options key none fresh c).0 ≡ fresh
answer-new key (ok r) c = refl
answer-new key (err e) c = refl

summary-new :
    (key : String) (computed : Result Error DiffResult × Caches) (c : Caches)
    → (answer_summary none (store_summary key computed) c).0 ≡ summarised computed.0
summary-new key (ok r, c') c = refl
summary-new key (err e, c') c = refl

module _ (d a b : String) (c : Caches) (v : IsCovered c) where
  forgotten :
      (Dict.get (invalidate_cache_for_document d c).diffs (cache_key d a b) ≡ none)
      × (Dict.get (invalidate_cache_for_document d c).summaries (cache_key d a b) ≡ none)
  forgotten =
      let (diffs, summaries) = invalidate-get d c (cache_key d a b) v in
      (diffs ∙ rw (starts_with-cache_key d a b), summaries ∙ rw (starts_with-cache_key d a b))

-- Whatever diffs, summaries (each also with the previous version) and invalidations have been asked
-- for since the start, of documents whose ids hold no colon: once a document is invalidated, the next
-- answer is computed from the store as it is then, both for the default diff and for the summary of
-- any two different versions of the document.
pub compute_diff-after_invalidate :
    (xs : List Operation) (s : Store) (d a b : String)
    → all (λ (x : Operation). has_no_colon (document_of x)) xs ≡ true
    → str_eq a b ≡ false
    → let c' = invalidate_cache_for_document d (after_all xs no_caches) in
      ((compute_diff s default_options d a b c').0 ≡ fresh_diff s default_options d a b)
      × ((compute_summary_only s d a b c').0 ≡ summarised (fresh_diff s default_options d a b))
unfolding compute_diff compute_summary_only
compute_diff-after_invalidate xs s d a b plain ne =
    let c = after_all xs no_caches in
    let v = operations-IsCovered xs plain in
    let (no_diff, no_summary) = forgotten d a b c v in
    let new : (compute_diff s default_options d a b (invalidate_cache_for_document d c)).0
        ≡ fresh_diff s default_options d a b =
      rw (ne, no_diff)
        (answer-new (cache_key d a b) (fresh_diff s default_options d a b)
          (invalidate_cache_for_document d c)) in
    (
      new,
      rw no_summary (
          summary-new (cache_key d a b)
            (compute_diff s default_options d a b (invalidate_cache_for_document d c))
            (invalidate_cache_for_document d c)
          ∙ ap summarised new),
    )
