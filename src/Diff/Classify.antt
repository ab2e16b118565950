-- ===== src/Diff/Classify.antt =====
-- How a node is classified: the two directions against each other, and what the key cannot see.
use mimir_backend.Prelude.{
  ◌+◌, ◌≤◌, String, ◌≡◌, refl, ap, ◌∙◌, Bool, true, false, List, [], ◌∷◌, ◌++◌, Option, none, some,
  append_assoc, arith, eq_iff, eq_refl, find?, length, Text, text_eq, text_eq_refl,
}
use mimir_backend.Diff.Node.{
  Node, NodeDiff, ChangeType, added, deleted, unchanged, DiffOptions, classify, classify_both,
  node_content_key, node_diff, done, max_nodes_sync, move_of, is_move, same_parent, rstrip,
  normalize_content,
}
use mimir_backend.Diff.Complete.{entry_of, shown, VisitsMembers, has_id, node_diff-entries}

-- What a change is when the versions are read the other way round.
abbrev pub reverse_change : ChangeType → ChangeType
reverse_change added = deleted
reverse_change deleted = added
reverse_change c = c

abbrev pub change_of : Option NodeDiff → Option ChangeType
change_of none = none
change_of (some d) = some d.change_type

abbrev pub reversed : Option ChangeType → Option ChangeType
reversed none = none
reversed (some c) = some (reverse_change c)

text_eq_comm : (s t : Text) → text_eq s t ≡ text_eq t s
text_eq_comm [] [] = refl
text_eq_comm [] (b ∷ t) = refl
text_eq_comm (a ∷ s) [] = refl
text_eq_comm (a ∷ s) (b ∷ t) = ground (arith, text_eq_comm s t)

same_parent_comm : (p q : Option String) → same_parent p q ≡ same_parent q p
same_parent_comm none none = refl
same_parent_comm none (some b) = refl
same_parent_comm (some a) none = refl
same_parent_comm (some a) (some b) = ground (arith, eq_iff a b, eq_iff b a)

is_move_comm : (a b : Node) → is_move (move_of a b) ≡ is_move (move_of b a)
unfolding move_of
is_move_comm a b = ground (arith, same_parent_comm a.parent_id b.parent_id)

-- Reading the two versions the other way round turns additions and deletions into each other, and
-- every other change into one of its own kind.
pub classify-reversed :
    (o : DiffOptions) (i : String) (a b : Option Node)
    → change_of (classify o i b a) ≡ reversed (change_of (classify o i a b))
unfolding classify classify_both
classify-reversed o i none none = refl
classify-reversed o i none (some b) = refl
classify-reversed o i (some a) none = refl
classify-reversed o i (some a) (some b) =
    ground (arith, text_eq_comm (node_content_key a) (node_content_key b), is_move_comm a b)

same_parent_refl : (p : Option String) → same_parent p p ≡ true
same_parent_refl none = refl
same_parent_refl (some a) = eq_refl a

classify_self :
    (o : DiffOptions) (i : String) (a : Option Node)
    → o.include_unchanged ≡ false
    → shown o (classify o i a a) ≡ none
unfolding classify classify_both move_of
classify_self o i none h = refl
classify_self o i (some a) h =
    ground (arith, text_eq_refl (node_content_key a), same_parent_refl a.parent_id)

no_entries : (ds : List NodeDiff) → ((i : String) → entry_of i ds ≡ none) → ds ≡ []
no_entries [] h = refl
no_entries (d ∷ ds) h = absurd (ground (arith, h d.node_id, eq_refl d.node_id))

-- The tree diff of a list of nodes with itself reports no changes, if unchanged nodes are not asked
-- for, if twice the number of its nodes is within the limit of nodes, and if a set is visited member
-- by member. (`compute_diff` refuses to compare a version with itself.)
pub node_diff_self :
    (order : List String → List String) (o : DiffOptions) (nodes : List Node)
    → VisitsMembers order
    → length nodes + length nodes ≤ max_nodes_sync
    → o.include_unchanged ≡ false
    → (issue : Bool) × (node_diff order o nodes nodes ≡ done ([], issue))
node_diff_self order o nodes visits small h =
    let (ds, issue, run, each) = node_diff-entries order o nodes nodes visits small in
    (
      issue,
      run
          ∙ ap (λ (l : List NodeDiff). done (l, issue))
              (no_entries ds (λ i. each i ∙ classify_self o i (find? (has_id i) nodes) h)),
    )

module _ (a : Node) (x y z : Text) (rx : rstrip x ≡ x)
    (rxy : rstrip (x ++ (b'|' ∷ y)) ≡ x ++ (b'|' ∷ y)) (rz : rstrip z ≡ z)
    (ryz : rstrip (y ++ (b'|' ∷ z)) ≡ y ++ (b'|' ∷ z))
    (content : a.content ≡ some (x ++ (b'|' ∷ y))) (title : a.title ≡ some z) where
  same_key :
      node_content_key a
      ≡ node_content_key (record a { content = some x; title = some (y ++ (b'|' ∷ z)) })
  unfolding node_content_key normalize_content
  same_key = rw (content, title) (simp (rx, rxy, rz, ryz, append_assoc))

  -- If the end of a node's content, from a bar on, moves to the front of its title, and no part
  -- ends in white space, the change is not seen: the node is classified as unchanged.
  pub classify-misses_bar_move :
      (o : DiffOptions) (i : String)
      → change_of (
          classify o i
            (some a)
            (some (record a { content = some x; title = some (y ++ (b'|' ∷ z)) })))
        ≡ some unchanged
  unfolding classify classify_both move_of
  classify-misses_bar_move o i =
      ground (arith, same_key, text_eq_refl (node_content_key a), same_parent_refl a.parent_id)
