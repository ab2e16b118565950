-- ===== src/Diff/Table.antt =====
-- The table of `_lcs_diff` holds the lengths of longest common subsequences.
use mimir_backend.Prelude.{
  ℕ, zero, suc, ◌+◌, ◌≤◌, ◌<◌, max, ◌≡◌, refl, sym, ap, ◌∙◌, List, [], ◌∷◌, arith, inl, inr,
  Bool-cases, if◌then◌else◌, length, get_or, Text, text_eq,
}
use mimir_backend.Diff.Inline.{lcs_row, lcs_rows, lcs_table, zeros, cell}

-- The textbook recursion, on two lists that are read from their last token on.
abbrev pub lcs : List Text → List Text → ℕ
lcs [] ys = 0
lcs (x ∷ xs) [] = 0
lcs (x ∷ xs) (y ∷ ys) =
    if text_eq x y then lcs xs ys + 1 else max (lcs xs (y ∷ ys)) (lcs (x ∷ xs) ys)

pub lcs_nil : (xs : List Text) → lcs xs [] ≡ 0
lcs_nil [] = refl
lcs_nil (x ∷ xs) = refl

-- One more token on either side takes nothing away, and adds at most one.
pub record Close (xs ys : List Text) : Type 0 where
  pub grows_left : (x : Text) → lcs xs ys ≤ lcs (x ∷ xs) ys
  pub grows_right : (y : Text) → lcs xs ys ≤ lcs xs (y ∷ ys)
  pub by_one_left : (x : Text) → lcs (x ∷ xs) ys ≤ lcs xs ys + 1
  pub by_one_right : (y : Text) → lcs xs (y ∷ ys) ≤ lcs xs ys + 1

pub close : (xs ys : List Text) → Close xs ys
close [] [] = record {
  grows_left = λ x. omega arith;
  grows_right = λ y. omega arith;
  by_one_left = λ x. omega arith;
  by_one_right = λ y. omega arith;
}
close [] (y' ∷ ys) =
    let right = close [] ys in
    record {
      grows_left = λ x. omega arith;
      grows_right = λ y. omega arith;
      by_one_left = λ x. ground (arith, right.by_one_left x);
      by_one_right = λ y. omega arith;
    }
close (x' ∷ xs) [] =
    let left = close xs [] in
    record {
      grows_left = λ x. omega arith;
      grows_right = λ y. omega arith;
      by_one_left = λ x. omega arith;
      by_one_right = λ y. ground (arith, left.by_one_right y, lcs_nil xs);
    }
close (x' ∷ xs) (y' ∷ ys) =
    let left = close xs (y' ∷ ys) in
    let right = close (x' ∷ xs) ys in
    record {
      grows_left = λ (x : Text). elim (Bool-cases (text_eq x y')) [
        | inl e ↦ rw e (right.by_one_right y')
        | inr e ↦ rw e (omega arith)
      ];
      grows_right = λ (y : Text). elim (Bool-cases (text_eq x' y)) [
        | inl e ↦ rw e (left.by_one_left x')
        | inr e ↦ rw e (omega arith)
      ];
      by_one_left = λ (x : Text). elim (Bool-cases (text_eq x y')) [
        | inl e ↦ rw e (omega (arith, right.grows_right y'))
        | inr e ↦ rw e (omega (arith, right.grows_right y', right.by_one_left x))
      ];
      by_one_right = λ (y : Text). elim (Bool-cases (text_eq x' y)) [
        | inl e ↦ rw e (omega (arith, left.grows_left x'))
        | inr e ↦ rw e (omega (arith, left.grows_left x', left.by_one_right y))
      ];
    }

-- A row of the table: the lengths for `xs` and each longer part of `ys ++ more`.
abbrev IsRow : List Text → List Text → List ℕ → List Text → Type 0
IsRow xs ys [] [] = Unit
IsRow xs ys (c ∷ row) (y ∷ more) = (c ≡ lcs xs (y ∷ ys)) × IsRow xs (y ∷ ys) row more
IsRow xs ys _ _ = ⊥

zeros-IsRow : (ys more : List Text) → IsRow [] ys (zeros more) more
zeros-IsRow ys [] = tt
zeros-IsRow ys (y ∷ more) = (refl, zeros-IsRow (y ∷ ys) more)

lcs_row-IsRow :
    (x : Text) (xs ys more : List Text) (above : List ℕ) (diagonal left : ℕ)
    → IsRow xs ys above more
    → diagonal ≡ lcs xs ys
    → left ≡ lcs (x ∷ xs) ys
    → IsRow (x ∷ xs) ys (lcs_row x diagonal above left more) more
unfolding lcs_row
lcs_row-IsRow x xs ys [] [] d l r e k = tt
lcs_row-IsRow x xs ys [] (up ∷ above) d l r e k = elim r [ ]
lcs_row-IsRow x xs ys (y ∷ more) [] d l r e k = elim r [ ]
lcs_row-IsRow x xs ys (y ∷ more) (up ∷ above) d l (first, rest) e k =
    let here : (if text_eq x y then d + 1 else max up l) ≡ lcs (x ∷ xs) (y ∷ ys) =
      rw (e, k, first) refl in
    (here, lcs_row-IsRow x xs (y ∷ ys) more above up _ rest first here)

-- All rows, for each longer part of `xs ++ more`.
abbrev AreRows : List Text → List (List ℕ) → List Text → List Text → Type 0
AreRows xs [] more ys = ⊥
AreRows xs (row ∷ rows) [] ys = IsRow xs [] row ys
AreRows xs (row ∷ rows) (x ∷ more) ys = IsRow xs [] row ys × AreRows (x ∷ xs) rows more ys

lcs_rows-AreRows :
    (xs : List Text) (row : List ℕ) (more ys : List Text)
    → IsRow xs [] row ys
    → AreRows xs (lcs_rows row more ys) more ys
unfolding lcs_rows
lcs_rows-AreRows xs row [] ys r = r
lcs_rows-AreRows xs row (x ∷ more) ys r = (
  r,
  lcs_rows-AreRows (x ∷ xs) (lcs_row x 0 row 0 ys) more ys
      (lcs_row-IsRow x xs [] ys row 0 0 r (sym (lcs_nil xs)) refl),
)

lcs_table-AreRows : (xs ys : List Text) → AreRows [] (lcs_table xs ys) xs ys
unfolding lcs_table
lcs_table-AreRows xs ys = lcs_rows-AreRows [] (zeros ys) xs ys (zeros-IsRow [] ys)

-- The first `n` tokens of a list, the last of them first, on top of others.
abbrev onto : ℕ → List Text → List Text → List Text
onto zero ts out = out
onto (suc n) [] out = out
onto (suc n) (t ∷ ts) out = onto n ts (t ∷ out)

-- The first `n` tokens, the last of them first.
abbrev pub before : List Text → ℕ → List Text
before ts zero = []
before ts (suc n) = get_or ts n [] ∷ before ts n

onto-suc :
    (n : ℕ) (ts out : List Text)
    → n < length ts
    → onto (suc n) ts out ≡ get_or ts n [] ∷ onto n ts out
onto-suc n [] out h = absurd (omega arith)
onto-suc zero (t ∷ ts) out h = refl
onto-suc (suc n) (t ∷ ts) out h = onto-suc n ts (t ∷ out) (omega arith)

onto-eq-before : (n : ℕ) (ts : List Text) → n ≤ length ts → onto n ts [] ≡ before ts n
onto-eq-before zero ts h = refl
onto-eq-before (suc n) ts h =
    onto-suc n ts [] h ∙ ap (get_or ts n [] ∷◌) (onto-eq-before n ts (omega arith))

IsRow-get :
    (xs ys more : List Text) (row : List ℕ) (j : ℕ)
    → IsRow xs ys row more
    → j < length more
    → get_or row j 0 ≡ lcs xs (onto (suc j) more ys)
IsRow-get xs ys [] row j r h = absurd (omega arith)
IsRow-get xs ys (y ∷ more) [] j r h = elim r [ ]
IsRow-get xs ys (y ∷ more) (c ∷ row) zero r h = r.0
IsRow-get xs ys (y ∷ more) (c ∷ row) (suc j) r h =
    IsRow-get xs (y ∷ ys) more row j r.1 (omega arith)

AreRows-get :
    (xs more ys : List Text) (rows : List (List ℕ)) (i : ℕ)
    → AreRows xs rows more ys
    → i ≤ length more
    → IsRow (onto i more xs) [] (get_or rows i []) ys
AreRows-get xs more ys [] i r h = elim r [ ]
AreRows-get xs [] ys (row ∷ rows) zero r h = r
AreRows-get xs [] ys (row ∷ rows) (suc i) r h = absurd (omega arith)
AreRows-get xs (x ∷ more) ys (row ∷ rows) zero r h = r.0
AreRows-get xs (x ∷ more) ys (row ∷ rows) (suc i) r h =
    AreRows-get (x ∷ xs) more ys rows i r.1 (omega arith)

-- Each cell of the table is the length of a longest common subsequence of the two beginnings.
pub cell-lcs_table :
    (xs ys : List Text) (i j : ℕ)
    → i ≤ length xs
    → j ≤ length ys
    → cell (lcs_table xs ys) i j ≡ lcs (before xs i) (before ys j)
cell-lcs_table xs ys i zero h k = sym (lcs_nil (before xs i))
cell-lcs_table xs ys i (suc j) h k =
    IsRow-get (onto i xs []) [] ys (get_or (lcs_table xs ys) i []) j
      (AreRows-get [] xs ys (lcs_table xs ys) i (lcs_table-AreRows xs ys) h) k
    ∙ rw (onto-eq-before i xs h, onto-eq-before (suc j) ys k) refl
