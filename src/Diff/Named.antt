-- ===== src/Diff/Named.antt =====
-- Each cached diff names versions that give the key under which it is cached.
use mimir_backend.Prelude.Raises.{Result, ok, err}
use mimir_backend.Prelude.{
  String, ◌≡◌, refl, sym, ◌∙◌, Bool, true, false, List, [], ◌∷◌, Option, none, some, inl, inr,
  Bool-cases, eq_iff, if◌then◌else◌, str_eq,
}
use mimir_backend.Prelude.Dict
use mimir_backend.Prelude.Dict.{Dict, get-put, get-remove}
use mimir_backend.Diff.Node.{DiffOptions}
use mimir_backend.Diff.Cache.{
  Error, Store, Caches, DiffResult, cache_key, fresh_diff, compute_diff, is_cached, cached_diff,
  answer, drop_keys,
}
use mimir_backend.Diff.Caching.{fresh_diff-ids}
use mimir_backend.Diff.Keys.{has_no_colon, cache_key-document}

abbrev pub IsNamed : Caches → Type 0
IsNamed c =
    (d a b : String) (r : DiffResult)
    → has_no_colon d ≡ true
    → Dict.get c.diffs (cache_key d a b) ≡ some r
    → cache_key d r.version_a.id r.version_b.id ≡ cache_key d a b

-- A diff stored under its own key.
put-IsNamed :
    (d a b : String) (r : DiffResult) (c : Caches)
    → has_no_colon d ≡ true
    → r.version_a.id ≡ a
    → r.version_b.id ≡ b
    → IsNamed c
    → IsNamed (record c { diffs = Dict.put c.diffs (cache_key d a b) r })
put-IsNamed d a b r c plain first second v d' a' b' r' plain' h =
    elim (Bool-cases (str_eq (cache_key d a b) (cache_key d' a' b'))) [
      | inl e ↦
          let keys = (eq_iff (cache_key d a b) (cache_key d' a' b')).0 e in
          let same : r ≡ r' =
            cc (rw (get-put c.diffs (cache_key d a b) r (cache_key d' a' b'), e) at h) in
          let document = cache_key-document d d' a b a' b' plain plain' keys in
          rw (← same, first, second) (rw (← document) refl ∙ keys)
      | inr e ↦
          v d' a' b' r' plain'
            (rw (get-put c.diffs (cache_key d a b) r (cache_key d' a' b'), e) at h)
    ]

answer-IsNamed :
    (o : DiffOptions) (d a b : String) (f : Option DiffResult) (fresh : Result Error DiffResult)
    (c : Caches)
    → has_no_colon d ≡ true
    → ((r : DiffResult) → fresh ≡ ok r → (r.version_a.id ≡ a) × (r.version_b.id ≡ b))
    → IsNamed c
    → IsNamed (answer o (cache_key d a b) f fresh c).1
answer-IsNamed o d a b (some x) fresh c plain ids v = v
answer-IsNamed o d a b none (err e) c plain ids v = v
answer-IsNamed o d a b none (ok r) c plain ids v = elim (Bool-cases (is_cached o)) [
  | inl e ↦ let (first, second) = ids r refl in rw e (put-IsNamed d a b r c plain first second v)
  | inr e ↦ rw e v
]

pub compute_diff-IsNamed :
    (s : Store) (o : DiffOptions) (d a b : String) (c : Caches)
    → has_no_colon d ≡ true
    → IsNamed c
    → IsNamed (compute_diff s o d a b c).1
unfolding compute_diff
compute_diff-IsNamed s o d a b c plain v = elim (Bool-cases (str_eq a b)) [
  | inl e ↦ rw e v
  | inr e ↦ rw e (
      answer-IsNamed o d a b (cached_diff o (cache_key d a b) c) (fresh_diff s o d a b) c plain
        (fresh_diff-ids s o d a b) v)
]

-- What is left when a value is dropped.
left {ℓ} :
    {V : Type ℓ} (b : Bool) {o : Option V} {v : V} → (if b then none else o) ≡ some v → o ≡ some v
left true h = absurd (cc h)
left false h = h

pub drop_keys-IsNamed : (ks : List String) (c : Caches) → IsNamed c → IsNamed (drop_keys ks c)
unfolding drop_keys
drop_keys-IsNamed [] c v = v
drop_keys-IsNamed (k ∷ ks) c v =
    drop_keys-IsNamed ks
      (record { diffs = Dict.remove c.diffs k; summaries = Dict.remove c.summaries k })
      (λ d a b r plain h.
        v d a b r plain
          (left (str_eq k (cache_key d a b)) (sym (get-remove c.diffs k (cache_key d a b)) ∙ h)))
