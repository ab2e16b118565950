-- ===== src/Diff/Summary.antt =====
-- `DiffSummaryGenerator` of app/services/diff_service.py. The description is held as its parts, the
-- counts that it names, and not as the rendered sentence.
use mimir_backend.Prelude.{
  ℕ, zero, suc, ◌+◌, ◌-◌, ◌*◌, String, Bool, true, false, not, ◌||◌, List, [], ◌∷◌, map, Option,
  none, some, ltb, leb, ◌==◌, if◌then◌else◌, length, take, keep, str_eq, Text,
}
use mimir_backend.Prelude.Dict
use mimir_backend.Prelude.Dict.{Dict}
use mimir_backend.Diff.Inline.{InlineDiffToken, unchanged}
use mimir_backend.Diff.Node.{
  Node, NodeDiff, NodeSnapshot, ChangeType, added, deleted, modified, moved, is_unchanged,
}

pub data DiffSeverity : Type 0 where
  major minor trivial : DiffSeverity

pub record ChangedSection : Type 0 where
  pub node_id : String
  pub title : Option Text
  pub change_type : ChangeType
  pub sub_changes : ℕ

-- The counts named by the sentence, in its order; none of them is 0.
pub record Description : Type 0 where
  pub parts : List (ChangeType × ℕ)

pub record DiffSummary : Type 0 where
  pub total_added : ℕ
  pub total_deleted : ℕ
  pub total_modified : ℕ
  pub total_moved : ℕ
  pub total_unchanged : ℕ
  pub changed_characters : ℕ
  pub description : Description
  pub severity : Option DiffSeverity
  pub changed_sections : List ChangedSection

abbrev pub max_changed_sections : ℕ
max_changed_sections = 10

abbrev pub max_parent_depth : ℕ
max_parent_depth = 50

abbrev pub same_change : ChangeType → ChangeType → Bool
same_change added added = true
same_change deleted deleted = true
same_change modified modified = true
same_change moved moved = true
same_change ChangeType.unchanged ChangeType.unchanged = true
same_change _ _ = false

-- `counts[change_type]`
unfoldable pub count_of : ChangeType → List NodeDiff → ℕ
count_of c [] = 0
count_of c (d ∷ ds) = (if same_change d.change_type c then 1 else 0) + count_of c ds

-- `len(x.content or "")` of an optional snapshot
abbrev content_length : Option NodeSnapshot → ℕ
content_length none = 0
content_length (some s) = elim s.content [ none ↦ 0 | some t ↦ length t ]

abbrev is_kept : InlineDiffToken → Bool
is_kept k = elim k.type [ unchanged ↦ true | _ ↦ false ]

token_chars : List InlineDiffToken → ℕ
token_chars [] = 0
token_chars (k ∷ ks) = (if is_kept k then 0 else length k.text) + token_chars ks

-- `abs(after_len - before_len)`
abbrev distance : ℕ → ℕ → ℕ
distance a b = if leb a b then b - a else a - b

-- an empty token list counts as no inline diff
abbrev modified_chars :
    Option (List InlineDiffToken) → Option NodeSnapshot → Option NodeSnapshot → ℕ
modified_chars (some (k ∷ ks)) before after = token_chars (k ∷ ks)
modified_chars _ before after = distance (content_length before) (content_length after)

abbrev diff_chars : NodeDiff → ℕ
diff_chars d = elim d.change_type [
  | added ↦ content_length d.after
  | deleted ↦ content_length d.before
  | modified ↦ modified_chars d.inline_diff d.before d.after
  | _ ↦ 0
]

unfoldable pub changed_chars : List NodeDiff → ℕ
unfolding token_chars
changed_chars [] = 0
changed_chars (d ∷ ds) = diff_chars d + changed_chars ds

-- `_build_description`
unfoldable pub build_description : ℕ → ℕ → ℕ → ℕ → Description
build_description added_n deleted_n modified_n moved_n = record {
  parts =
      keep (λ (p : ChangeType × ℕ). ltb 0 p.1)
        ((added, added_n) ∷ (deleted, deleted_n) ∷ (modified, modified_n) ∷ (moved, moved_n) ∷ []);
}

-- `_calc_severity`. The quotients 0.3 and 0.1 are compared exactly: for fewer than 10 ^ 15 nodes a
-- rounded quotient passes them when the exact one does.
unfoldable pub calc_severity : ℕ → ℕ → Option DiffSeverity
calc_severity changed total =
    if total == 0 || changed == 0
    then none
    else if leb (3 * total) (10 * changed)
    then some major
    else if leb total (10 * changed)
    then some minor
    else some trivial

abbrev pub is_section : Node → Bool
is_section n = str_eq n.node_type "section"

abbrev pub self_section : Node → Option String
self_section n = if is_section n then some n.id else none

abbrev pub or_self : Option String → Node → Option String
or_self none n = self_section n
or_self (some top) n = if str_eq top "" then self_section n else some top

abbrev pub climb : Dict Node → (String → Option String) → Node → Option String
climb node_map above n = elim n.parent_id [
  | none ↦ self_section n
  | some p ↦ elim (Dict.get node_map p) [ none ↦ self_section n | some m ↦ or_self (above p) n ]
]

-- `_find_top_section`, with the calls that `depth` still allows. An empty id counts as none found.
unfoldable pub find_top_section : Dict Node → ℕ → String → Option String
find_top_section node_map zero node_id = none
find_top_section node_map (suc calls) node_id = elim (Dict.get node_map node_id) [
  | none ↦ none
  | some n ↦ climb node_map (find_top_section node_map calls) n
]

-- `{n.id: n for n in nodes}` on top of a map: the last node with an id counts
unfoldable pub put_nodes : Dict Node → List Node → Dict Node
put_nodes m [] = m
put_nodes m (n ∷ ns) = put_nodes (Dict.put m n.id n) ns

abbrev pub or_itself : Option String → String → String
or_itself none i = i
or_itself (some top) i = if str_eq top "" then i else top

abbrev pub counted : Option ℕ → ℕ
counted none = 1
counted (some n) = n + 1

-- `section_map`, with the number of changed nodes for the list of them
unfoldable pub section_counts : Dict Node → List String → Dict ℕ → Dict ℕ
section_counts node_map [] m = m
section_counts node_map (i ∷ ids) m =
    let s = or_itself (find_top_section node_map (max_parent_depth + 1) i) i in
    section_counts node_map ids (Dict.put m s (counted (Dict.get m s)))

-- the ids of the entries that are not unchanged, each once
unfoldable pub changed_ids : List NodeDiff → List String
changed_ids [] = []
changed_ids (d ∷ ds) =
    let rest = changed_ids ds in
    if is_unchanged d.change_type
    then rest
    else d.node_id ∷ keep (λ (i : String). not (str_eq i d.node_id)) rest

-- `diff_type_map.get(section_id, MODIFIED)`: the last entry with an id counts
unfoldable pub type_of : List NodeDiff → String → ChangeType → ChangeType
type_of [] i c = c
type_of (d ∷ ds) i c = type_of ds i (if str_eq d.node_id i then d.change_type else c)

abbrev title_of : Option Node → Option Text
title_of none = none
title_of (some n) = n.title

-- `_identify_changed_sections`; `set_order` is the order in which the set of ids is visited
unfoldable pub identify_changed_sections :
    (List String → List String) → List NodeDiff → List Node → List Node → List ChangedSection
identify_changed_sections set_order diffs nodes_b nodes_a =
    let node_map = put_nodes (put_nodes [] nodes_a) nodes_b in
    map
      (λ (e : String × ℕ). record {
        node_id = e.0;
        title = title_of (Dict.get node_map e.0);
        change_type = type_of diffs e.0 modified;
        sub_changes = e.1;
      })
      (take max_changed_sections (section_counts node_map (set_order (changed_ids diffs)) []))

-- `generate`
unfoldable pub generate :
    (List String → List String) → List NodeDiff → List Node → List Node → DiffSummary
generate set_order diffs nodes_b nodes_a =
    let a = count_of added diffs in
    let d = count_of deleted diffs in
    let m = count_of modified diffs in
    let v = count_of moved diffs in
    let u = count_of ChangeType.unchanged diffs in
    record {
      total_added = a;
      total_deleted = d;
      total_modified = m;
      total_moved = v;
      total_unchanged = u;
      changed_characters = changed_chars diffs;
      description = build_description a d m v;
      severity = calc_severity (a + d + m + v) (a + d + m + v + u);
      changed_sections = identify_changed_sections set_order diffs nodes_b nodes_a;
    }
