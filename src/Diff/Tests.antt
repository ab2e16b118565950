-- ===== src/Diff/Tests.antt =====
-- The diff theorems at concrete texts, nodes and versions.
use mimir_backend.Prelude.Raises.{ok}
use mimir_backend.Prelude.{
  ◌≤◌, Bool, ◌≡◌, ◌↔◌, ◌+◌, refl, false, some, none, [], ◌∷◌, List, ℕ, String, arith, codes, Text,
  find?, str_eq, length, if◌then◌else◌,
}
use mimir_backend.Prelude.Dict
use mimir_backend.Prelude.Dict.{Dict}
use mimir_backend.Diff.Inline.{tokenize, text_diff, lcs_diff, default_max_inline_length}
use mimir_backend.Diff.Faithful.{old_side, new_side, text_diff-faithful}
use mimir_backend.Diff.Inline.{trace_back, lcs_table}
use mimir_backend.Diff.Longest.{Picked, kept_texts, no_more, skip, pick, trace_back-longest}
use mimir_backend.Diff.Node.{
  rstrip, node_to_snapshot, node_content_key, normalize_content, inline_part, move_of, Node,
  NodeDiff, classify, classify_both, node_diff, node_map, all_ids, diff_ids, done, unchanged,
  deleted, modified,
}
use mimir_backend.Diff.Complete.{entry_of, shown, has_id, node_diff-entries}
use mimir_backend.Diff.Classify.{
  change_of, classify-reversed, node_diff_self, classify-misses_bar_move,
}
use mimir_backend.Diff.Summary.{find_top_section, generate}
use mimir_backend.Diff.Sections.{generate-counts}
use mimir_backend.Diff.Cache.{
  build_version_ref, Store, Version, Caches, DiffResult, compute_diff, compute_summary_only,
  invalidate_cache_for_document, default_options, fresh_diff, get_version,
}
use mimir_backend.Diff.Fresh.{summarised, compute_diff-after_invalidate}
use mimir_backend.Diff.Caching.{compute_diff-one_direction}
use mimir_backend.Diff.Invalidated.{IsCovered}
use mimir_backend.Diff.Coverage.{operations-IsCovered}
use mimir_backend.Diff.Keys.{has_no_colon}
use mimir_backend.Diff.Operations.{
  Operation, diff, diff_previous, summary, summary_previous, invalidate, after_all, no_caches,
}

abbrev old_text : Text
old_text = codes "one two"

abbrev new_text : Text
new_text = codes "one three"

is_kept_in_full : (text_diff (some old_text) (some new_text) default_max_inline_length).1 ≡ false
unfolding text_diff lcs_diff tokenize
is_kept_in_full = refl

text_diff-faithful_example :
    (old_side (text_diff (some old_text) (some new_text) default_max_inline_length).0
      ≡ codes "one two")
    × (new_side (text_diff (some old_text) (some new_text) default_max_inline_length).0
        ≡ codes "one three")
text_diff-faithful_example =
    text_diff-faithful (some old_text) (some new_text) default_max_inline_length is_kept_in_full

abbrev a : Text
a = codes "a"

abbrev b : Text
b = codes "b"

abbrev c : Text
c = codes "c"

abbrev walked : List Text
walked = kept_texts [] (
    trace_back (a ∷ b ∷ c ∷ []) (b ∷ a ∷ c ∷ []) (lcs_table (a ∷ b ∷ c ∷ []) (b ∷ a ∷ c ∷ [])) 3 3
      [])

trace_back-longest_example :
    Picked (a ∷ b ∷ c ∷ []) 3 walked × Picked (b ∷ a ∷ c ∷ []) 3 walked × (2 ≤ length walked)
trace_back-longest_example =
    trace_back-longest (a ∷ b ∷ c ∷ []) (b ∷ a ∷ c ∷ []) (c ∷ b ∷ [])
      (pick 2 c (b ∷ []) refl (pick 1 b [] refl (skip 0 [] no_more)))
      (pick 2 c (b ∷ []) refl (skip 1 (b ∷ []) (pick 0 b [] refl no_more)))

abbrev chapter : Node
chapter = record {
  id = "n1";
  parent_id = none;
  node_type = "section";
  order_index = 0;
  title = some (codes "Start");
  content = none;
  metadata = [];
}

abbrev paragraph : Text → Node
paragraph content = record {
  id = "n2";
  parent_id = some "n1";
  node_type = "paragraph";
  order_index = 1;
  title = some (codes "c");
  content = some content;
  metadata = [];
}

abbrev as_listed : List String → List String
as_listed ids = ids

abbrev old_nodes : List Node
old_nodes = chapter ∷ paragraph old_text ∷ []

abbrev new_nodes : List Node
new_nodes = chapter ∷ paragraph new_text ∷ []

node_diff-entries_example :
    (ds : List NodeDiff) × (issue : Bool) × (node_diff as_listed default_options old_nodes new_nodes
      ≡ done (ds, issue))
    × ((i : String)
        → entry_of i ds
          ≡ shown default_options (
              classify default_options i (find? (has_id i) old_nodes) (find? (has_id i) new_nodes)))
node_diff-entries_example =
    node_diff-entries as_listed default_options old_nodes new_nodes (λ i ids. refl) (omega arith)

classify-reversed_example :
    change_of (classify default_options "n1" (some chapter) none) ≡ some deleted
unfolding classify
classify-reversed_example = classify-reversed default_options "n1" none (some chapter)

node_diff_self_example :
    (issue : Bool) × (node_diff as_listed default_options old_nodes old_nodes ≡ done ([], issue))
node_diff_self_example =
    node_diff_self as_listed default_options old_nodes (λ i ids. refl) (omega arith) refl

classify-misses_bar_move_example :
    change_of (
      classify default_options "n2" (some (paragraph (codes "a|b"))) (
        some (record (paragraph (codes "a|b")) {
          content = some (codes "a");
          title = some (codes "b|c");
        })))
    ≡ some unchanged
unfolding rstrip
classify-misses_bar_move_example =
    classify-misses_bar_move (paragraph (codes "a|b")) (codes "a") (codes "b") (codes "c") refl refl
      refl refl refl refl default_options "n2"

abbrev tree : Dict Node
tree = ("n1", chapter) ∷ ("n2", paragraph new_text) ∷ []

finds_chapter : find_top_section tree 51 "n2" ≡ some "n1"
unfolding find_top_section Dict.get
finds_chapter = refl

abbrev entry : NodeDiff
entry = record {
  node_id = "n2";
  change_type = modified;
  before = none;
  after = none;
  inline_diff = none;
  inline_diff_skipped = false;
  move_info = none;
}

generate-counts_example :
    let s = generate as_listed (entry ∷ []) new_nodes old_nodes in
    (s.total_added + s.total_deleted + s.total_modified + s.total_moved + s.total_unchanged ≡ 1)
    × ((s.severity ≡ none) ↔ (s.total_unchanged ≡ 1))
generate-counts_example = generate-counts as_listed (entry ∷ []) new_nodes old_nodes

abbrev version : String → ℕ → Version
version id number = record {
  id = id;
  document_id = "doc";
  version_number = number;
  status = "draft";
  created_at = "2025-01-01T00:00:00";
  created_by = none;
  label = none;
  change_summary = none;
  parent_version_id = none;
}

abbrev nodes_of_version : String → List Node
nodes_of_version id = if str_eq id "v1" then old_nodes else new_nodes

abbrev store : Store
store = record {
  versions = version "v1" 1 ∷ version "v2" 2 ∷ [];
  nodes_of = nodes_of_version;
  set_order = as_listed;
}

abbrev change : NodeDiff
change = record {
  node_id = "n2";
  change_type = modified;
  before = some (node_to_snapshot (paragraph old_text));
  after = some (node_to_snapshot (paragraph new_text));
  inline_diff = none;
  inline_diff_skipped = false;
  move_info = none;
}

abbrev forth : DiffResult
forth = record {
  document_id = "doc";
  version_a = build_version_ref (version "v1" 1);
  version_b = build_version_ref (version "v2" 2);
  summary = generate as_listed (change ∷ []) new_nodes old_nodes;
  nodes = change ∷ [];
  has_data_issue = false;
}

abbrev after_forth : Caches
after_forth = (compute_diff store default_options "doc" "v1" "v2" no_caches).1

goes_forth : (compute_diff store default_options "doc" "v1" "v2" no_caches).0 ≡ ok forth
unfolding compute_diff fresh_diff get_version node_diff node_map all_ids diff_ids classify
    classify_both node_content_key normalize_content rstrip inline_part move_of Dict.get Dict.put
goes_forth = refl

compute_diff-one_direction_example :
    (forth.version_a.id ≡ "v1")
    × (forth.version_b.id ≡ "v2")
    × (compute_diff store default_options "doc" "v1" "v2" after_forth ≡ (ok forth, after_forth))
    × (compute_diff store default_options "doc" "v2" "v1" after_forth ≡ (ok forth, after_forth))
unfolding build_version_ref Dict.get
compute_diff-one_direction_example =
    compute_diff-one_direction store "doc" "v1" "v2" no_caches forth refl refl goes_forth

-- A diff, its summary by way of the previous version, and an invalidation between them.
abbrev calls : List Operation
calls =
    diff store default_options "doc" "v1" "v2"
    ∷ summary_previous store "doc" "v2"
    ∷ invalidate "doc"
    ∷ summary store "doc" "v1" "v2"
    ∷ diff_previous store default_options "doc" "v2"
    ∷ []

compute_diff-after_invalidate_example :
    let c = invalidate_cache_for_document "doc" (after_all calls no_caches) in
    ((compute_diff store default_options "doc" "v2" "v1" c).0
      ≡ fresh_diff store default_options "doc" "v2" "v1")
    × ((compute_summary_only store "doc" "v2" "v1" c).0
        ≡ summarised (fresh_diff store default_options "doc" "v2" "v1"))
unfolding has_no_colon
compute_diff-after_invalidate_example =
    compute_diff-after_invalidate calls store "doc" "v2" "v1" refl refl

operations-IsCovered_example : IsCovered (after_all calls no_caches)
unfolding has_no_colon
operations-IsCovered_example = operations-IsCovered calls refl
