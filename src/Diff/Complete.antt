-- ===== src/Diff/Complete.antt =====
-- What `NodeDiffer.diff` returns: one classified entry for each node that either version has.
use mimir_backend.Prelude.{
  ◌+◌, ◌≤◌, String, ◌≡◌, refl, sym, ◌∙◌, Bool, true, false, not, ◌&&◌, ◌||◌, List, [], ◌∷◌, ◌++◌,
  Option, none, some, arith, inl, inr, Option-cases, eq_iff, eq_refl, any, find?, keep, ltb,
  if◌then◌else◌, length, str_eq,
}
use mimir_backend.Prelude.Dict
use mimir_backend.Prelude.Dict.{Dict, get-put}
use mimir_backend.Diff.Node.{
  Node, NodeDiff, DiffOptions, classify, classify_both, node_map, all_ids, is_none, done, add_diff,
  diff_ids, node_diff, max_nodes_sync, is_unchanged,
}

abbrev pub has_id : String → Node → Bool
has_id i n = str_eq n.id i

abbrev or_first : Option Node → Option Node → Option Node
or_first none b = b
or_first (some a) b = some a

-- The map holds the first node with each id.
get-node_map :
    (ns : List Node) (m : Dict Node) (issue : Bool) (i : String)
    → Dict.get (node_map ns m issue).0 i ≡ or_first (Dict.get m i) (find? (has_id i) ns)
unfolding node_map
get-node_map [] m issue i = ground arith
get-node_map (n ∷ ns) m issue i = elim (Option-cases (Dict.get m n.id)) [
  | inl e ↦
      rw (e, node_map)
        (get-node_map ns (Dict.put m n.id n) issue i
          ∙ rw (get-put m n.id n i) (ground (arith, eq_iff n.id i)))
  | inr (old, e) ↦ rw (e, node_map) (get-node_map ns m true i ∙ ground (arith, eq_iff n.id i))
]

abbrev pub member : String → List String → Bool
member i = any (λ (k : String). str_eq k i)

abbrev pub is_some : Option Node → Bool
is_some none = false
is_some (some n) = true

member-keys : (m : Dict Node) (i : String) → member i (Dict.keys m) ≡ is_some (Dict.get m i)
unfolding Dict.get
member-keys [] i = refl
member-keys ((k, n) ∷ m) i = ground (arith, member-keys m i)

member-append :
    (i : String) (xs ys : List String) → member i (xs ++ ys) ≡ (member i xs || member i ys)
member-append i [] ys = refl
member-append i (x ∷ xs) ys = ground (arith, member-append i xs ys)

member-keep :
    (p : String → Bool) (i : String) (xs : List String)
    → member i (keep p xs) ≡ (p i && member i xs)
member-keep p i [] = ground arith
member-keep p i (x ∷ xs) = ground (arith, member-keep p i xs, eq_iff x i)

member-all_ids :
    (a b : Dict Node) (i : String)
    → member i (all_ids a b) ≡ (is_some (Dict.get a i) || is_some (Dict.get b i))
unfolding all_ids
member-all_ids a b i =
    member-append i (Dict.keys a) _
    ∙ ground (
      arith,
      member-keys a i,
      member-keys b i,
      member-keep (λ (k : String). is_none (Dict.get a k)) i (Dict.keys b),
    )

-- The first entry of a node.
abbrev pub entry_of : String → List NodeDiff → Option NodeDiff
entry_of i = find? (λ (d : NodeDiff). str_eq d.node_id i)

-- An entry that is left out when unchanged nodes are not asked for.
abbrev pub shown : DiffOptions → Option NodeDiff → Option NodeDiff
shown o none = none
shown o (some d) = if not o.include_unchanged && is_unchanged d.change_type then none else some d

node_id-classify :
    (o : DiffOptions) (i : String) (a b : Option Node) {d : NodeDiff}
    → classify o i a b ≡ some d
    → d.node_id ≡ i
unfolding classify classify_both
node_id-classify o i none none h = cc
node_id-classify o i none (some b) h = ground arith
node_id-classify o i (some a) none h = ground arith
node_id-classify o i (some a) (some b) h = ground arith

-- `classify` fails only for a node that neither version has.
classify-some :
    (o : DiffOptions) (i : String) (a b : Option Node)
    → (is_some a || is_some b) ≡ true
    → (d : NodeDiff) × (classify o i a b ≡ some d)
unfolding classify
classify-some o i none none h = cc
classify-some o i none (some b) h = (_, refl)
classify-some o i (some a) none h = (_, refl)
classify-some o i (some a) (some b) h = (_, refl)

abbrev joined : DiffOptions → NodeDiff → List NodeDiff → List NodeDiff
joined o d ds = if not o.include_unchanged && is_unchanged d.change_type then ds else d ∷ ds

add_diff-joined :
    (o : DiffOptions) (d : NodeDiff) (ds : List NodeDiff)
    → add_diff o (some d) (done ds) ≡ done (joined o d ds)
add_diff-joined o d ds = ground arith

module _ (o : DiffOptions) (a b : Dict Node) where
  abbrev classified : String → Option NodeDiff
  classified i = classify o i (Dict.get a i) (Dict.get b i)

  entry_of-add_diff :
      (i j : String) (d : NodeDiff) (ds : List NodeDiff)
      → classified i ≡ some d
      → (member : Bool) → entry_of j ds ≡ (if member then shown o (classified j) else none)
      → (es : List NodeDiff) → add_diff o (some d) (done ds) ≡ done es
      → entry_of j es ≡ (if str_eq i j || member then shown o (classified j) else none)
  entry_of-add_diff i j d ds e member h es k =
      ground (arith, eq_iff i j, node_id-classify o i (Dict.get a i) (Dict.get b i) e)

  diff_ids-entries :
      (ids : List String)
      → ((i : String)
          → member i ids ≡ true
          → (is_some (Dict.get a i) || is_some (Dict.get b i)) ≡ true)
      → (ds : List NodeDiff) × (diff_ids o a b ids ≡ done ds)
        × ((j : String) → entry_of j ds ≡ (if member j ids then shown o (classified j) else none))
  unfolding diff_ids
  diff_ids-entries [] known = ([], refl, λ j. refl)
  diff_ids-entries (i ∷ ids) known =
      let (ds, run, each) = diff_ids-entries ids (λ k m. known k (ground arith)) in
      let (d, e) =
        classify-some o i (Dict.get a i) (Dict.get b i) (known i (ground (arith, eq_refl i))) in
      (
        joined o d ds,
        rw (e, run) (add_diff-joined o d ds),
        λ j.
            entry_of-add_diff i j d ds e (member j ids) (each j) (joined o d ds)
              (add_diff-joined o d ds),
      )

-- What is documented of the iteration of a set: it visits the members and nothing else.
abbrev pub VisitsMembers : (List String → List String) → Type 0
VisitsMembers order = (i : String) (ids : List String) → member i (order ids) ≡ member i ids

map_of : (ns : List Node) (i : String) → Dict.get (node_map ns [] false).0 i ≡ find? (has_id i) ns
unfolding Dict.get
map_of ns i = get-node_map ns [] false i

outside :
    (o : DiffOptions) (i : String) (a b : Option Node) (m : Bool)
    → m ≡ (is_some a || is_some b)
    → (if m then shown o (classify o i a b) else none) ≡ shown o (classify o i a b)
unfolding classify
outside o i none none m h = ground arith
outside o i none (some b) m h = ground arith
outside o i (some a) none m h = ground arith
outside o i (some a) (some b) m h = ground arith

-- Within the size limit the tree diff always succeeds, in whatever order the ids are visited, and
-- its entry for an id is the classification of the first node of each version with that id: no node
-- of either version is missed, and none is left out but an unchanged one that is not asked for.
pub node_diff-entries :
    (order : List String → List String) (o : DiffOptions) (nodes_a nodes_b : List Node)
    → VisitsMembers order
    → length nodes_a + length nodes_b ≤ max_nodes_sync
    → (ds : List NodeDiff) × (issue : Bool) × (node_diff order o nodes_a nodes_b ≡ done (ds, issue))
      × ((i : String)
          → entry_of i ds
            ≡ shown o (classify o i (find? (has_id i) nodes_a) (find? (has_id i) nodes_b)))
unfolding node_diff
node_diff-entries order o nodes_a nodes_b visits small =
    let fits : ltb max_nodes_sync (length nodes_a + length nodes_b) ≡ false = ground arith in
    let a = (node_map nodes_a [] false).0 in
    let b = (node_map nodes_b [] false).0 in
    let (ds, run, each) =
      diff_ids-entries o a b (order (all_ids a b))
        (λ i m. sym (member-all_ids a b i) ∙ sym (visits i (all_ids a b)) ∙ m) in
    (
      ds,
      (node_map nodes_a [] false).1 || (node_map nodes_b [] false).1,
      rw (fits, run) refl,
      λ i.
          each i
          ∙ outside o i (Dict.get a i) (Dict.get b i) _
              (visits i (all_ids a b) ∙ member-all_ids a b i)
          ∙ rw (map_of nodes_a i, map_of nodes_b i) refl,
    )
