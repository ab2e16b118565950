-- ===== src/Diff/Cache.antt =====
-- `DiffService` and its two in-memory caches, app/services/diff_service.py.
use Prim.Native.String.{◌++◌ as ◌+++◌}
use text.Mathlib.Text.{starts_with}
use mimir_backend.Prelude.Raises.{Result, ok, err, ◌>>=◌, found}
use mimir_backend.Prelude.{
  ℕ, ◌-◌, String, Bool, false, not, ◌&&◌, List, [], ◌∷◌, Option, none, some, ltb, ◌==◌,
  if◌then◌else◌, find?, keep, str_eq,
}
use mimir_backend.Prelude.Dict
use mimir_backend.Prelude.Dict.{Dict}
use mimir_backend.Prelude.Order.{sorted_pair}
use mimir_backend.Diff.Node.{
  Node, NodeDiff, DiffOptions, DiffOutcome, DiffError, done, raised, diff_too_large,
  assertion_failed, node_diff,
}
use mimir_backend.Diff.Summary.{DiffSummary, generate}

pub record Version : Type 0 where
  pub id : String
  pub document_id : String
  pub version_number : ℕ
  pub status : String
  pub created_at : String
  pub created_by : Option String
  pub label : Option String
  pub change_summary : Option String
  pub parent_version_id : Option String

pub record VersionRef : Type 0 where
  pub id : String
  pub version_number : ℕ
  pub status : String
  pub created_at : String
  pub created_by : Option String
  pub label : Option String
  pub change_summary : Option String

pub record DiffResult : Type 0 where
  pub document_id : String
  pub version_a : VersionRef
  pub version_b : VersionRef
  pub summary : DiffSummary
  pub nodes : List NodeDiff
  pub has_data_issue : Bool

pub record DiffSummaryResponse : Type 0 where
  pub document_id : String
  pub version_a : VersionRef
  pub version_b : VersionRef
  pub summary : DiffSummary

-- What the service reads: the version rows, the nodes of a version, and how a set is visited.
pub record Store : Type 0 where
  pub versions : List Version
  pub nodes_of : String → List Node
  pub set_order : List String → List String

pub record Caches : Type 0 where
  pub diffs : Dict DiffResult
  pub summaries : Dict DiffSummaryResponse

pub data Error : Type 0 where
  same_version too_large assertion no_previous_version : Error
  version_not_found : String → Error

-- `_cache_key`
unfoldable pub cache_key : String → String → String → String
cache_key document_id v1 v2 =
    let (a, b) = sorted_pair v1 v2 in "diff:" +++ (document_id +++ (":" +++ (a +++ (":" +++ b))))

-- versions_repository.get_by_document_and_version_id
unfoldable pub get_version : Store → String → String → Option Version
get_version s document_id version_id =
    find? (λ (v : Version). str_eq v.id version_id && str_eq v.document_id document_id) s.versions

-- `_build_version_ref`
unfoldable pub build_version_ref : Version → VersionRef
build_version_ref v = record {
  id = v.id;
  version_number = v.version_number;
  status = v.status;
  created_at = v.created_at;
  created_by = v.created_by;
  label = v.label;
  change_summary = v.change_summary;
}

-- the exceptions of the tree diff, as the service passes them on
abbrev pub diff_error : DiffError → Error
diff_error diff_too_large = too_large
diff_error assertion_failed = assertion

abbrev pub diff_result {ℓ} : {A : Type ℓ} → DiffOutcome A → Result Error A
diff_result (done a) = ok a
diff_result (raised e) = err (diff_error e)

-- everything after the look into the cache, up to the result
unfoldable pub fresh_diff : Store → DiffOptions → String → String → String → Result Error DiffResult
fresh_diff s o document_id a_id b_id = do
  version_a ← found (get_version s document_id a_id) (version_not_found a_id)
  version_b ← found (get_version s document_id b_id) (version_not_found b_id)
  compared ← diff_result (node_diff s.set_order o (s.nodes_of a_id) (s.nodes_of b_id))
  ok (record {
    document_id = document_id;
    version_a = build_version_ref version_a;
    version_b = build_version_ref version_b;
    summary = generate s.set_order compared.0 (s.nodes_of b_id) (s.nodes_of a_id);
    nodes = compared.0;
    has_data_issue = compared.1;
  })

-- only the default options use the cache
abbrev pub is_cached : DiffOptions → Bool
is_cached o = not o.inline_diff && not o.include_unchanged

abbrev pub cached_diff : DiffOptions → String → Caches → Option DiffResult
cached_diff o key c = if is_cached o then Dict.get c.diffs key else none

-- `_set_cached_diff` under the same condition
abbrev pub store_diff :
    DiffOptions → String → Result Error DiffResult → Caches → Result Error DiffResult × Caches
store_diff o key (err e) c = (err e, c)
store_diff o key (ok r) c =
    (ok r, if is_cached o then record c { diffs = Dict.put c.diffs key r } else c)

abbrev pub answer :
    DiffOptions
    → String
    → Option DiffResult
    → Result Error DiffResult
    → Caches
    → Result Error DiffResult × Caches
answer o key (some r) fresh c = (ok r, c)
answer o key none fresh c = store_diff o key fresh c

-- `compute_diff`
unfoldable pub compute_diff :
    Store → DiffOptions → String → String → String → Caches → Result Error DiffResult × Caches
compute_diff s o document_id a_id b_id c =
    if str_eq a_id b_id
    then (err same_version, c)
    else answer o (cache_key document_id a_id b_id)
        (cached_diff o (cache_key document_id a_id b_id) c) (fresh_diff s o document_id a_id b_id) c

-- the version before a version: its parent, or else the one numbered just below it
abbrev parent_of : Store → Option String → Option Version
parent_of s none = none
parent_of s (some p) =
    if str_eq p "" then none else find? (λ (v : Version). str_eq v.id p) s.versions

abbrev or_numbered : Store → Version → Option Version → Option Version
or_numbered s b (some a) = some a
or_numbered s b none =
    if ltb 1 b.version_number
    then find?
        (λ (v : Version).
          str_eq v.document_id b.document_id && v.version_number == b.version_number - 1)
        s.versions
    else none

unfoldable pub previous_version : Store → Version → Option Version
previous_version s b = or_numbered s b (parent_of s b.parent_version_id)

abbrev pub versions_to_compare : Store → String → String → Result Error (Version × Version)
versions_to_compare s document_id version_id = do
  b ← found (get_version s document_id version_id) (version_not_found version_id)
  a ← found (previous_version s b) no_previous_version
  ok (a, b)

abbrev pub default_options : DiffOptions
default_options = record {
  inline_diff = false;
  include_unchanged = false;
  max_inline_length = 5000;
}

abbrev pub with_versions :
    Store
    → DiffOptions
    → String
    → Result Error (Version × Version)
    → Caches
    → Result Error DiffResult × Caches
with_versions s o document_id (err e) c = (err e, c)
with_versions s o document_id (ok (a, b)) c = compute_diff s o document_id a.id b.id c

-- `compute_diff_with_previous`
unfoldable pub compute_diff_with_previous :
    Store → DiffOptions → String → String → Caches → Result Error DiffResult × Caches
compute_diff_with_previous s o document_id version_id c =
    with_versions s o document_id (versions_to_compare s document_id version_id) c

abbrev pub summary_response : DiffResult → DiffSummaryResponse
summary_response full = record {
  document_id = full.document_id;
  version_a = full.version_a;
  version_b = full.version_b;
  summary = full.summary;
}

abbrev pub store_summary :
    String → Result Error DiffResult × Caches → Result Error DiffSummaryResponse × Caches
store_summary key (err e, c) = (err e, c)
store_summary key (ok full, c) = (
  ok (summary_response full),
  record c { summaries = Dict.put c.summaries key (summary_response full) },
)

abbrev pub answer_summary :
    Option DiffSummaryResponse
    → Result Error DiffSummaryResponse × Caches
    → Caches
    → Result Error DiffSummaryResponse × Caches
answer_summary (some r) computed c = (ok r, c)
answer_summary none computed c = computed

-- `compute_summary_only`
unfoldable pub compute_summary_only :
    Store → String → String → String → Caches → Result Error DiffSummaryResponse × Caches
compute_summary_only s document_id a_id b_id c =
    answer_summary (Dict.get c.summaries (cache_key document_id a_id b_id))
      (store_summary (cache_key document_id a_id b_id)
        (compute_diff s default_options document_id a_id b_id c))
      c

-- the second half of `compute_summary_with_previous`
abbrev pub summary_of_full :
    String → Result Error DiffResult × Caches → Result Error DiffSummaryResponse × Caches
summary_of_full document_id (err e, c) = (err e, c)
summary_of_full document_id (ok full, c) =
    answer_summary
      (Dict.get c.summaries (cache_key document_id full.version_a.id full.version_b.id))
      (store_summary (cache_key document_id full.version_a.id full.version_b.id) (ok full, c)) c

-- `compute_summary_with_previous`
unfoldable pub compute_summary_with_previous :
    Store → String → String → Caches → Result Error DiffSummaryResponse × Caches
compute_summary_with_previous s document_id version_id c =
    summary_of_full document_id
      (compute_diff_with_previous s default_options document_id version_id c)

-- `_diff_cache.pop(k, None)` and `_summary_cache.pop(k, None)` for each key
unfoldable pub drop_keys : List String → Caches → Caches
drop_keys [] c = c
drop_keys (k ∷ ks) c =
    drop_keys ks (record { diffs = Dict.remove c.diffs k; summaries = Dict.remove c.summaries k })

abbrev pub prefix_of : String → String
prefix_of document_id = "diff:" +++ (document_id +++ ":")

-- `invalidate_cache_for_document`: the keys are those of the diff cache
unfoldable pub invalidate_cache_for_document : String → Caches → Caches
invalidate_cache_for_document document_id c =
    drop_keys (keep (λ (k : String). starts_with k (prefix_of document_id)) (Dict.keys c.diffs)) c
