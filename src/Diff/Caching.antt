-- ===== src/Diff/Caching.antt =====
-- What the caches of the diff service keep, and what they forget.
use mimir_backend.Prelude.Raises.{Result, ok, err}
use mimir_backend.Prelude.{
  String, ◌≡◌, refl, ◌∙◌, false, ◌&&◌, Option, none, some, arith, inl, inr, Option-cases, eq_iff,
  eq_refl, find?-sound, str_eq,
}
use mimir_backend.Prelude.Dict
use mimir_backend.Prelude.Dict.{Dict, get-put, get-remove}
use mimir_backend.Prelude.Order.{sorted_pair_comm}
use mimir_backend.Diff.Node.{DiffOptions}
use mimir_backend.Diff.Cache.{
  Error, Store, Version, Caches, get_version, build_version_ref, DiffResult, cache_key, fresh_diff,
  compute_diff, answer, default_options,
}

pub cache_key_comm : (d a b : String) → cache_key d b a ≡ cache_key d a b
unfolding cache_key
cache_key_comm d a b = rw (sorted_pair_comm a b) refl

id-get_version : (s : Store) (d i : String) (v : Version) → get_version s d i ≡ some v → v.id ≡ i
unfolding get_version
id-get_version s d i v h = ground (
  arith,
  find?-sound (λ (x : Version). str_eq x.id i && str_eq x.document_id d) s.versions v h,
  eq_iff v.id i,
)

-- A computed result names the two versions in the order of the request.
pub fresh_diff-ids :
    (s : Store) (o : DiffOptions) (d a b : String) (r : DiffResult)
    → fresh_diff s o d a b ≡ ok r
    → (r.version_a.id ≡ a) × (r.version_b.id ≡ b)
unfolding fresh_diff build_version_ref
fresh_diff-ids s o d a b r h = elim (Option-cases (get_version s d a)) [
  | inl e ↦ absurd (cc (rw e at h))
  | inr (va, e) ↦ elim (Option-cases (get_version s d b)) [
    | inl e' ↦ absurd (cc (rw (e, e') at h))
    | inr (vb, e') ↦
        (ground (arith, id-get_version s d a va e), ground (arith, id-get_version s d b vb e'))
  ]
]

answer-stores :
    (key : String) (f : Option DiffResult) (fresh : Result Error DiffResult) (c : Caches)
    (r : DiffResult)
    → Dict.get c.diffs key ≡ f
    → (answer default_options key f fresh c).0 ≡ ok r
    → Dict.get (answer default_options key f fresh c).1.diffs key ≡ some r
answer-stores key (some x) fresh c r e h = e ∙ ground arith
answer-stores key none (err x) c r e h = cc
answer-stores key none (ok x) c r e h = get-put c.diffs key x key ∙ rw eq_refl (ground arith)

pub compute_diff-stores :
    (s : Store) (d a b : String) (c : Caches) (r : DiffResult)
    → str_eq a b ≡ false
    → (compute_diff s default_options d a b c).0 ≡ ok r
    → Dict.get (compute_diff s default_options d a b c).1.diffs (cache_key d a b) ≡ some r
unfolding compute_diff
compute_diff-stores s d a b c r ne h = rw ne (
    answer-stores (cache_key d a b) (Dict.get c.diffs (cache_key d a b))
      (fresh_diff s default_options d a b) c r refl (rw ne at h))

compute_diff-hit :
    (s : Store) (d a b : String) (c : Caches) (r : DiffResult)
    → str_eq a b ≡ false
    → Dict.get c.diffs (cache_key d a b) ≡ some r
    → compute_diff s default_options d a b c ≡ (ok r, c)
unfolding compute_diff
compute_diff-hit s d a b c r ne h = rw (ne, h)

answer-fresh :
    (key : String) (fresh : Result Error DiffResult) (c : Caches) (r : DiffResult)
    → (answer default_options key none fresh c).0 ≡ ok r
    → fresh ≡ ok r
answer-fresh key (ok x) c r h = h
answer-fresh key (err e) c r h = h

-- A default diff that was not cached names the versions as requested. From then on the same
-- request, and the request for the other direction too, return that very result and leave the
-- caches alone: the reversed request gets additions for deletions.
pub compute_diff-one_direction :
    (s : Store) (d a b : String) (c : Caches) (r : DiffResult)
    → str_eq a b ≡ false
    → Dict.get c.diffs (cache_key d a b) ≡ none
    → (compute_diff s default_options d a b c).0 ≡ ok r
    → let c' = (compute_diff s default_options d a b c).1 in
      (r.version_a.id ≡ a)
      × (r.version_b.id ≡ b)
      × (compute_diff s default_options d a b c' ≡ (ok r, c'))
      × (compute_diff s default_options d b a c' ≡ (ok r, c'))
unfolding compute_diff
compute_diff-one_direction s d a b c r ne miss h =
    let stored = compute_diff-stores s d a b c r ne h in
    let ids = fresh_diff-ids s default_options d a b r (
      answer-fresh (cache_key d a b) (fresh_diff s default_options d a b) c r
        (rw (ne, miss) at h)) in
    (
      ids.0,
      ids.1,
      compute_diff-hit s d a b _ r ne stored,
      compute_diff-hit s d b a _ r (ground (arith, eq_iff a b, eq_iff b a))
          (rw (cache_key_comm d a b) stored),
    )
