-- ===== src/Diff/Longest.antt =====
-- The walk back through the table of `_lcs_diff` keeps as many tokens as can be kept.
use mathlib.Core.Path.{subst}
use mimir_backend.Prelude.{
  ℕ, zero, suc, ◌+◌, ◌≤◌, max, ◌≡◌, refl, sym, ◌∙◌, true, false, List, [], ◌∷◌, arith, inl, inr,
  Bool-cases, leb, length, get_or, Text, text_eq, text_eq-eq, text_eq_refl,
}
use mimir_backend.Diff.Inline.{
  InlineDiffToken, added, deleted, unchanged, lcs_table, cell, trace_back,
}
use mimir_backend.Diff.Table.{lcs, lcs_nil, close, before, cell-lcs_table}

larger_right : (a b n : ℕ) → leb a b ≡ true → b + n ≡ max a b + n
larger_right a b n h = ground arith

larger_left : (a b n : ℕ) → leb a b ≡ false → a + n ≡ max a b + n
larger_left a b n h = ground arith

-- `zs`, its last token first, can be picked from the first `i` tokens of `xs`, in their order.
pub data Picked (xs : List Text) : ℕ → List Text → Type 0 where
  no_more : Picked xs 0 []
  skip : (i : ℕ) (zs : List Text) → Picked xs i zs → Picked xs (suc i) zs
  pick :
      (i : ℕ) (z : Text) (zs : List Text)
      → get_or xs i [] ≡ z
      → Picked xs i zs
      → Picked xs (suc i) (z ∷ zs)

-- How many tokens are unchanged.
abbrev pub kept_tokens : List InlineDiffToken → ℕ
kept_tokens [] = 0
kept_tokens (k ∷ ks) = elim k.type [ unchanged ↦ kept_tokens ks + 1 | _ ↦ kept_tokens ks ]

-- The texts of the unchanged tokens, the last one first, before `later`.
abbrev pub kept_texts : List Text → List InlineDiffToken → List Text
kept_texts later [] = later
kept_texts later (k ∷ ks) = elim k.type [
  | unchanged ↦ kept_texts (k.text ∷ later) ks
  | _ ↦ kept_texts later ks
]

length-kept_texts :
    (later : List Text) (ks : List InlineDiffToken)
    → length (kept_texts later ks) ≡ length later + kept_tokens ks
length-kept_texts later [] = omega arith
length-kept_texts later (k ∷ ks) =
    ground (arith, length-kept_texts (k.text ∷ later) ks, length-kept_texts later ks)

module _ (xs ys : List Text) where
  -- The walk back keeps as many tokens as the cell where it starts says.
  kept-trace_back :
      (i j : ℕ) (out : List InlineDiffToken)
      → i ≤ length xs
      → j ≤ length ys
      → kept_tokens (trace_back xs ys (lcs_table xs ys) i j out)
        ≡ lcs (before xs i) (before ys j) + kept_tokens out
  unfolding trace_back
  kept-trace_back zero zero out h k = omega arith
  kept-trace_back zero (suc j) out h k = kept-trace_back zero j _ h (omega arith)
  kept-trace_back (suc i) zero out h k =
      kept-trace_back i zero _ (omega arith) k ∙ omega (arith, lcs_nil (before xs i))
  kept-trace_back (suc i) (suc j) out h k =
      elim (Bool-cases (text_eq (get_or xs i []) (get_or ys j []))) [
        | inl e ↦
            rw (e, trace_back) (kept-trace_back i j _ (omega arith) (omega arith) ∙ omega arith)
        | inr e ↦
            elim (Bool-cases
              (leb (cell (lcs_table xs ys) i (suc j)) (cell (lcs_table xs ys) (suc i) j))) [
                | inl b ↦
                    rw (e, b, trace_back)
                      (kept-trace_back (suc i) j _ h (omega arith)
                        ∙ larger_right (lcs (before xs i) (before ys (suc j)))
                            (lcs (before xs (suc i)) (before ys j)) (kept_tokens out)
                            (rw
                              (
                                cell-lcs_table xs ys i (suc j) (omega arith) k,
                                cell-lcs_table xs ys (suc i) j h (omega arith),
                              )
                              at b))
                | inr b ↦
                    rw (e, b, trace_back)
                      (kept-trace_back i (suc j) _ (omega arith) k
                        ∙ larger_left (lcs (before xs i) (before ys (suc j)))
                            (lcs (before xs (suc i)) (before ys j)) (kept_tokens out)
                            (rw
                              (
                                cell-lcs_table xs ys i (suc j) (omega arith) k,
                                cell-lcs_table xs ys (suc i) j h (omega arith),
                              )
                              at b))
              ]
      ]

  -- What the walk back from (i, j) keeps before `out` can be picked from both lists.
  picked-trace_back :
      (i j : ℕ) (out : List InlineDiffToken)
      → (zs : List Text) × Picked xs i zs
        × Picked ys j zs
        × (kept_texts [] (trace_back xs ys (lcs_table xs ys) i j out) ≡ kept_texts zs out)
  unfolding trace_back
  picked-trace_back zero zero out = ([], no_more, no_more, refl)
  picked-trace_back zero (suc j) out =
      let (zs, p, q, e) =
        picked-trace_back zero j (record { type = added; text = get_or ys j [] } ∷ out) in
      (zs, p, skip j zs q, e)
  picked-trace_back (suc i) zero out =
      let (zs, p, q, e) =
        picked-trace_back i zero (record { type = deleted; text = get_or xs i [] } ∷ out) in
      (zs, skip i zs p, q, e)
  picked-trace_back (suc i) (suc j) out =
      elim (Bool-cases (text_eq (get_or xs i []) (get_or ys j []))) [
        | inl e ↦
            let (zs, p, q, k) =
              picked-trace_back i j (record { type = unchanged; text = get_or xs i [] } ∷ out) in
            let same = text_eq-eq (get_or xs i []) (get_or ys j []) e in
            (
              get_or xs i [] ∷ zs,
              pick i (get_or xs i []) zs refl p,
              pick j (get_or xs i []) zs (sym same) q,
              rw (e, trace_back) k,
            )
        | inr e ↦
            elim (Bool-cases
              (leb (cell (lcs_table xs ys) i (suc j)) (cell (lcs_table xs ys) (suc i) j))) [
                | inl b ↦
                    let (zs, p, q, k) =
                      picked-trace_back (suc i) j
                        (record { type = added; text = get_or ys j [] } ∷ out) in
                    (zs, p, skip j zs q, rw (e, b, trace_back) k)
                | inr b ↦
                    let (zs, p, q, k) =
                      picked-trace_back i (suc j)
                        (record { type = deleted; text = get_or xs i [] } ∷ out) in
                    (zs, skip i zs p, q, rw (e, b, trace_back) k)
              ]
      ]

common-le-lcs :
    (xs ys : List Text) (i j : ℕ) (zs : List Text)
    → Picked xs i zs
    → Picked ys j zs
    → length zs ≤ lcs (before xs i) (before ys j)
common-le-lcs xs ys zero j zs no_more q = omega arith
common-le-lcs xs ys (suc i) j zs (skip _ _ p) q = omega (
  arith,
  common-le-lcs xs ys i j zs p q,
  (close (before xs i) (before ys j)).grows_left (get_or xs i []),
)
common-le-lcs xs ys (suc i) zero (z ∷ zs) (pick _ _ _ e p) q = elim q [ ]
common-le-lcs xs ys (suc i) (suc j) (z ∷ zs) (pick _ _ _ e p) (skip _ _ q) = omega (
  arith,
  common-le-lcs xs ys (suc i) j (z ∷ zs) (pick i z zs e p) q,
  (close (before xs (suc i)) (before ys j)).grows_right (get_or ys j []),
)
common-le-lcs xs ys (suc i) (suc j) (z ∷ zs) (pick _ _ _ e p) (pick _ _ _ k q) =
    rw (e, k, text_eq_refl z) (omega (arith, common-le-lcs xs ys i j zs p q))

-- What the walk back through the table keeps, the texts of the tokens it leaves unchanged, is a
-- longest common subsequence of the two token lists: it can be picked, in order, from the old tokens
-- and from the new ones, and no list that can be picked from both is longer.
pub trace_back-longest :
    (xs ys zs : List Text)
    → Picked xs (length xs) zs
    → Picked ys (length ys) zs
    → let kept = kept_texts [] (trace_back xs ys (lcs_table xs ys) (length xs) (length ys) []) in
      Picked xs (length xs) kept × Picked ys (length ys) kept × (length zs ≤ length kept)
trace_back-longest xs ys zs p q =
    let tokens = trace_back xs ys (lcs_table xs ys) (length xs) (length ys) [] in
    let (best, from_xs, from_ys, e) = picked-trace_back xs ys (length xs) (length ys) [] in
    (
      subst (Picked xs (length xs)) (sym e) from_xs,
      subst (Picked ys (length ys)) (sym e) from_ys,
      omega (
        arith,
        common-le-lcs xs ys (length xs) (length ys) zs p q,
        kept-trace_back xs ys (length xs) (length ys) [] (omega arith) (omega arith),
        length-kept_texts [] tokens,
      ),
    )
