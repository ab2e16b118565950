-- ===== src/Diff/Sections.antt =====
-- What a summary counts, and where it places the changes.
use mimir_backend.Prelude.{
  ℕ, zero, suc, ◌+◌, ◌≤◌, String, ◌≡◌, refl, ◌∙◌, ◌↔◌, true, List, [], ◌∷◌, none, some, arith, inl,
  inr, Bool-cases, Option-cases, length, str_eq,
}
use mimir_backend.Prelude.Dict
use mimir_backend.Prelude.Dict.{Dict}
use mimir_backend.Diff.Node.{Node, NodeDiff, added, deleted, modified, moved, unchanged}
use mimir_backend.Diff.Summary.{
  count_of, calc_severity, generate, is_section, self_section, find_top_section, or_itself, counted,
  section_counts, max_parent_depth,
}

-- `n` is the node of `i` in the map, or one reached from it by parents.
pub data Above (m : Dict Node) (n : Node) : String → Type 0 where
  here : {i : String} → Dict.get m i ≡ some n → Above m n i
  up :
      {i : String} (k : Node) (p : String)
      → Dict.get m i ≡ some k
      → k.parent_id ≡ some p
      → Above m n p
      → Above m n i

-- A section found from `i`.
pub record SectionOf (m : Dict Node) (i : String) (top : String) : Type 0 where
  pub node : Node
  pub above : Above m node i
  pub section : is_section node ≡ true
  pub named : node.id ≡ top

self-SectionOf :
    (m : Dict Node) (i : String) (n : Node) {top : String}
    → Dict.get m i ≡ some n
    → self_section n ≡ some top
    → SectionOf m i top
self-SectionOf m i n e h = record {
  node = n;
  above = here e;
  section = ground arith;
  named = ground arith;
}

SectionOf-up :
    (m : Dict Node) (i : String) (n : Node) (p : String) {top : String}
    → Dict.get m i ≡ some n
    → n.parent_id ≡ some p
    → SectionOf m p top
    → SectionOf m i top
SectionOf-up m i n p e q s = record {
  node = s.node;
  above = up n p e q s.above;
  section = s.section;
  named = s.named;
}

-- The top section of a node is a section, the node itself or one of its ancestors.
pub find_top_section-SectionOf :
    (m : Dict Node) (calls : ℕ) (i : String) {top : String}
    → find_top_section m calls i ≡ some top
    → SectionOf m i top
unfolding find_top_section
find_top_section-SectionOf m zero i h = cc
find_top_section-SectionOf m (suc calls) i {top} h = elim (Option-cases (Dict.get m i)) [
  | inl e ↦ absurd (ground arith)
  | inr (n, e) ↦ elim (Option-cases n.parent_id) [
    | inl q ↦ self-SectionOf m i n e (ground arith)
    | inr (p, q) ↦ elim (Option-cases (Dict.get m p)) [
      | inl k ↦ self-SectionOf m i n e (ground arith)
      | inr (x, k) ↦ elim (Option-cases (find_top_section m calls p)) [
        | inl f ↦ self-SectionOf m i n e (ground arith)
        | inr (t, f) ↦ elim (Bool-cases (str_eq t "")) [
          | inl b ↦ self-SectionOf m i n e (ground arith)
          | inr b ↦
              SectionOf-up m i n p e q (find_top_section-SectionOf m calls p (f ∙ ground arith))
        ]
      ]
    ]
  ]
]

unfoldable pub total : Dict ℕ → ℕ
total [] = 0
total ((k, n) ∷ m) = n + total m

total-put : (m : Dict ℕ) (k : String) → total (Dict.put m k (counted (Dict.get m k))) ≡ total m + 1
unfolding total Dict.put Dict.get
total-put [] k = refl
total-put ((j, n) ∷ m) k = ground (arith, total-put m k)

-- Every changed node is counted in exactly one section: the counts of the sections add up to the
-- number of the changed nodes.
pub total-section_counts :
    (node_map : Dict Node) (ids : List String) (m : Dict ℕ)
    → total (section_counts node_map ids m) ≡ total m + length ids
unfolding section_counts
total-section_counts node_map [] m = omega arith
total-section_counts node_map (i ∷ ids) m = omega (
  arith,
  total-section_counts node_map ids _,
  total-put m (or_itself (find_top_section node_map (max_parent_depth + 1) i) i),
)

counts-length :
    (ds : List NodeDiff)
    → count_of added ds
        + count_of deleted ds
        + count_of modified ds
        + count_of moved ds
        + count_of unchanged ds
      ≡ length ds
unfolding count_of
counts-length [] = omega arith
counts-length (d ∷ ds) = ground (arith, counts-length ds)

calc_severity-none :
    (changed total : ℕ) → changed ≤ total → (calc_severity changed total ≡ none) ↔ (changed ≡ 0)
unfolding calc_severity
calc_severity-none changed total h = (λ e. ground arith, λ e. ground arith)

-- The five counts of a summary add up to the number of entries, and it has a severity unless every
-- entry is unchanged.
pub generate-counts :
    (order : List String → List String) (ds : List NodeDiff) (nodes_b nodes_a : List Node)
    → let s = generate order ds nodes_b nodes_a in
      (s.total_added + s.total_deleted + s.total_modified + s.total_moved + s.total_unchanged
        ≡ length ds)
      × ((s.severity ≡ none) ↔ (s.total_unchanged ≡ length ds))
unfolding generate
generate-counts order ds nodes_b nodes_a =
    let sum = counts-length ds in
    let none_iff =
      calc_severity-none
        (count_of added ds + count_of deleted ds + count_of modified ds + count_of moved ds)
        (count_of added ds
          + count_of deleted ds
          + count_of modified ds
          + count_of moved ds
          + count_of unchanged ds)
        (omega arith) in
    (sum, (λ e. omega (arith, none_iff.0 e), λ e. none_iff.1 (omega arith)))
