-- ===== src/Diff/Invalidated.antt =====
-- The caches of the diff service in step, and what an invalidation drops from them.
use text.Mathlib.Text.{starts_with}
use mimir_backend.Prelude.{
  String, ◌≡◌, refl, ◌∙◌, Bool, true, false, ◌&&◌, List, [], ◌∷◌, Option, none, some, arith, eq_iff,
  any, keep, if◌then◌else◌, str_eq,
}
use mimir_backend.Prelude.Dict
use mimir_backend.Prelude.Dict.{Dict, get-remove}
use mimir_backend.Diff.Cache.{Caches, drop_keys, prefix_of, invalidate_cache_for_document}

-- A summary is cached only under a key that the diff cache has too.
abbrev pub IsCovered : Caches → Type 0
IsCovered c = (k : String) → Dict.get c.diffs k ≡ none → Dict.get c.summaries k ≡ none

-- Dropping keys drops them from both caches, and nothing else.
drop_keys-get :
    (ks : List String) (c : Caches) (k : String)
    → (Dict.get (drop_keys ks c).diffs k
        ≡ (if any (λ (j : String). str_eq j k) ks then none else Dict.get c.diffs k))
      × (Dict.get (drop_keys ks c).summaries k
          ≡ (if any (λ (j : String). str_eq j k) ks then none else Dict.get c.summaries k))
unfolding drop_keys
drop_keys-get [] c k = (refl, refl)
drop_keys-get (j ∷ ks) c k =
    let rest =
      drop_keys-get ks
        (record { diffs = Dict.remove c.diffs j; summaries = Dict.remove c.summaries j }) k in
    (
      rest.0 ∙ rw (get-remove c.diffs j k) (ground arith),
      rest.1 ∙ rw (get-remove c.summaries j k) (ground arith),
    )

abbrev is_value {ℓ} : {V : Type ℓ} → Option V → Bool
is_value none = false
is_value (some v) = true

-- A key is among the keys of a dictionary, filtered, if it passes and has a value.
any-keys :
    {V : Type 0} (p : String → Bool) (d : Dict V) (k : String)
    → any (λ (j : String). str_eq j k) (keep p (Dict.keys d)) ≡ (p k && is_value (Dict.get d k))
unfolding Dict.get
any-keys p [] k = ground arith
any-keys p ((i, v) ∷ d) k = ground (arith, eq_iff i k, any-keys p d k)

-- An entry that is not there is dropped too.
dropped :
    {V W : Type 0} (b : Bool) (o : Option V) (t : Option W)
    → (o ≡ none → t ≡ none)
    → (if b && is_value o then none else t) ≡ (if b then none else t)
dropped false o t h = refl
dropped true none t h = h refl
dropped true (some x) t h = refl

-- When each cached summary has its diff in the cache, invalidating a document removes every entry
-- under its prefix from both caches, and leaves every other entry.
pub invalidate-get :
    (d : String) (c : Caches) (k : String)
    → IsCovered c
    → let c' = invalidate_cache_for_document d c in
      (Dict.get c'.diffs k ≡ (if starts_with k (prefix_of d) then none else Dict.get c.diffs k))
      × (Dict.get c'.summaries k
          ≡ (if starts_with k (prefix_of d) then none else Dict.get c.summaries k))
unfolding invalidate_cache_for_document
invalidate-get d c k v =
    let (diffs, summaries) =
      drop_keys-get (keep (λ (j : String). starts_with j (prefix_of d)) (Dict.keys c.diffs)) c k in
    let among = any-keys (λ (j : String). starts_with j (prefix_of d)) c.diffs k in
    (
      diffs
          ∙ rw among (
              dropped (starts_with k (prefix_of d)) (Dict.get c.diffs k) (Dict.get c.diffs k)
                (λ e. e)),
      summaries
          ∙ rw among (
              dropped (starts_with k (prefix_of d)) (Dict.get c.diffs k) (Dict.get c.summaries k)
                (v k)),
    )
