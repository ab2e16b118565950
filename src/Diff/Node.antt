-- ===== src/Diff/Node.antt =====
-- The tree diff of app/services/diff_service.py: `normalize_content`, `_node_content_key` and
-- `NodeDiffer`, with the node of app/models/node.py and the records of app/schemas/diff.py.
-- The metadata of a node is a JSON value; it is held as its text with sorted keys, which is what
-- `normalize_content` makes of it.
use mimir_backend.Prelude.{
  ℕ, ◌+◌, String, Bool, true, false, not, ◌&&◌, ◌||◌, List, [], ◌∷◌, ◌++◌, Option, none, some, ltb,
  ◌==◌, if◌then◌else◌, length, keep, str_eq, Text, codes, text_eq, is_space,
}
use mimir_backend.Prelude.Dict
use mimir_backend.Prelude.Dict.{Dict}
use mimir_backend.Diff.Inline.{InlineDiffToken, text_diff}

pub record Node : Type 0 where
  pub id : String
  pub parent_id : Option String
  pub node_type : String
  pub order_index : ℕ
  pub title : Option Text
  pub content : Option Text
  pub metadata : Text

pub data ChangeType : Type 0 where
  added deleted modified moved unchanged : ChangeType

pub data MoveType : Type 0 where
  hierarchy_change reorder : MoveType

pub record MoveInfo : Type 0 where
  pub old_parent_id : Option String
  pub new_parent_id : Option String
  pub old_order : ℕ
  pub new_order : ℕ
  pub move_type : MoveType

pub record NodeSnapshot : Type 0 where
  pub node_id : String
  pub node_type : String
  pub title : Option Text
  pub content : Option Text
  pub parent_id : Option String
  pub order : ℕ
  pub metadata : Text

pub record NodeDiff : Type 0 where
  pub node_id : String
  pub change_type : ChangeType
  pub before : Option NodeSnapshot
  pub after : Option NodeSnapshot
  pub inline_diff : Option (List InlineDiffToken)
  pub inline_diff_skipped : Bool
  pub move_info : Option MoveInfo

abbrev pub max_nodes_sync : ℕ
max_nodes_sync = 10000

abbrev is_nil : Text → Bool
is_nil [] = true
is_nil (c ∷ t) = false

-- `str.rstrip`
unfoldable pub rstrip : Text → Text
rstrip [] = []
rstrip (c ∷ s) = let t = rstrip s in if is_nil t && is_space c then [] else c ∷ t

-- `normalize_content` of an optional text
unfoldable pub normalize_content : Option Text → Text
unfolding rstrip
normalize_content none = []
normalize_content (some s) = rstrip s

-- `"|".join` of the four parts
unfoldable pub node_content_key : Node → Text
node_content_key n =
    normalize_content n.content
    ++ (b'|' ∷ normalize_content n.title ++ (b'|' ∷ codes n.node_type ++ (b'|' ∷ n.metadata)))

unfoldable pub node_to_snapshot : Node → NodeSnapshot
node_to_snapshot n = record {
  node_id = n.id;
  node_type = n.node_type;
  title = n.title;
  content = n.content;
  parent_id = n.parent_id;
  order = n.order_index;
  metadata = n.metadata;
}

abbrev pub same_parent : Option String → Option String → Bool
same_parent none none = true
same_parent (some a) (some b) = str_eq a b
same_parent _ _ = false

pub record DiffOptions : Type 0 where
  pub inline_diff : Bool
  pub include_unchanged : Bool
  pub max_inline_length : ℕ

-- `node.content or node.title or ""`
abbrev pub or_text : Option Text → Option Text → Option Text
or_text (some (c ∷ t)) d = some (c ∷ t)
or_text _ d = d

-- the inline tokens of a modified node, and whether they were skipped
unfoldable pub inline_part : DiffOptions → Node → Node → Option (List InlineDiffToken) × Bool
inline_part o a b =
    let (tokens, skipped) =
      text_diff (or_text a.content a.title) (or_text b.content b.title) o.max_inline_length in
    if o.inline_diff then (if skipped then none else some tokens, skipped) else (none, false)

unfoldable pub move_of : Node → Node → Option MoveInfo
move_of a b =
    if not (same_parent a.parent_id b.parent_id) || not (a.order_index == b.order_index)
    then some (record {
      old_parent_id = a.parent_id;
      new_parent_id = b.parent_id;
      old_order = a.order_index;
      new_order = b.order_index;
      move_type = if same_parent a.parent_id b.parent_id then reorder else hierarchy_change;
    })
    else none

abbrev pub is_move : Option MoveInfo → Bool
is_move none = false
is_move (some m) = true

-- a node that both versions have
unfoldable pub classify_both : DiffOptions → String → Node → Node → NodeDiff
classify_both o node_id a b =
    let content_changed = not (text_eq (node_content_key a) (node_content_key b)) in
    let (tokens, skipped) = inline_part o a b in
    record {
      node_id = node_id;
      change_type =
          if content_changed then modified else if is_move (move_of a b) then moved else unchanged;
      before = some (node_to_snapshot a);
      after = some (node_to_snapshot b);
      inline_diff = if content_changed then tokens else none;
      inline_diff_skipped = if content_changed then skipped else false;
      move_info = move_of a b;
    }

-- `_classify`; `none` is the failure of its assertion
unfoldable pub classify : DiffOptions → String → Option Node → Option Node → Option NodeDiff
classify o node_id none none = none
classify o node_id none (some b) = some (record {
  node_id = node_id;
  change_type = added;
  before = none;
  after = some (node_to_snapshot b);
  inline_diff = none;
  inline_diff_skipped = false;
  move_info = none;
})
classify o node_id (some a) none = some (record {
  node_id = node_id;
  change_type = deleted;
  before = some (node_to_snapshot a);
  after = none;
  inline_diff = none;
  inline_diff_skipped = false;
  move_info = none;
})
classify o node_id (some a) (some b) = some (classify_both o node_id a b)

-- The map of the nodes by id, and whether an id came twice: the first node is kept.
unfoldable pub node_map : List Node → Dict Node → Bool → Dict Node × Bool
node_map [] m issue = (m, issue)
node_map (n ∷ ns) m issue = elim (Dict.get m n.id) [
  | none ↦ node_map ns (Dict.put m n.id n) issue
  | some old ↦ node_map ns m true
]

abbrev pub is_none {ℓ} : {A : Type ℓ} → Option A → Bool
is_none none = true
is_none (some a) = false

-- the union of the two key sets, each key once
unfoldable pub all_ids : Dict Node → Dict Node → List String
all_ids map_a map_b =
    Dict.keys map_a ++ keep (λ (k : String). is_none (Dict.get map_a k)) (Dict.keys map_b)

pub data DiffError : Type 0 where
  diff_too_large assertion_failed : DiffError

pub data DiffOutcome {ℓ} (A : Type ℓ) : Type ℓ where
  done : A → DiffOutcome A
  raised : DiffError → DiffOutcome A

abbrev pub is_unchanged : ChangeType → Bool
is_unchanged unchanged = true
is_unchanged _ = false

abbrev pub add_diff :
    DiffOptions → Option NodeDiff → DiffOutcome (List NodeDiff) → DiffOutcome (List NodeDiff)
add_diff o none rest = raised assertion_failed
add_diff o (some d) (raised e) = raised e
add_diff o (some d) (done ds) =
    if not o.include_unchanged && is_unchanged d.change_type then done ds else done (d ∷ ds)

-- the loop over the ids
unfoldable pub diff_ids :
    DiffOptions → Dict Node → Dict Node → List String → DiffOutcome (List NodeDiff)
diff_ids o map_a map_b [] = done []
diff_ids o map_a map_b (i ∷ ids) =
    add_diff o (classify o i (Dict.get map_a i) (Dict.get map_b i)) (diff_ids o map_a map_b ids)

abbrev pub with_issue : Bool → DiffOutcome (List NodeDiff) → DiffOutcome (List NodeDiff × Bool)
with_issue issue (done ds) = done (ds, issue)
with_issue issue (raised e) = raised e

-- `NodeDiffer.diff`. A Python set is iterated in an order of its own: `set_order` lists its members.
unfoldable pub node_diff :
    (List String → List String)
    → DiffOptions
    → List Node
    → List Node
    → DiffOutcome (List NodeDiff × Bool)
node_diff set_order o nodes_a nodes_b =
    if ltb max_nodes_sync (length nodes_a + length nodes_b)
    then raised diff_too_large
    else let (map_a, issue_a) = node_map nodes_a [] false in
      let (map_b, issue_b) = node_map nodes_b [] false in
      with_issue (issue_a || issue_b) (diff_ids o map_a map_b (set_order (all_ids map_a map_b)))
