-- ===== src/Diff/Inline.antt =====
-- The word-level text diff of app/services/diff_service.py: `_tokenize`, `_lcs_diff`, `TextDiffer`.
-- A text is the list of its code points.
use mathlib.Core.List.{reverse}
use mimir_backend.Prelude.{
  ℕ, zero, suc, ◌+◌, ◌*◌, max, Bool, true, false, List, [], ◌∷◌, ◌++◌, Option, none, some, ltb, leb,
  if◌then◌else◌, length, get_or, Text, text_eq, is_space,
}

pub data TokenType : Type 0 where
  added deleted unchanged : TokenType

pub record InlineDiffToken : Type 0 where
  pub type : TokenType
  pub text : Text

abbrev pub default_max_inline_length : ℕ
default_max_inline_length = 5000

abbrev pub max_lcs_cells : ℕ
max_lcs_cells = 1000000

abbrev same_class : ℕ → ℕ → Bool
same_class c d = if is_space c then is_space d else if is_space d then false else true

-- `re.findall(r'\S+|\s+', text)`: a character joins the run that follows it, or starts a new one.
abbrev pub push : ℕ → List Text → List Text
push c [] = (c ∷ []) ∷ []
push c ([] ∷ ts) = (c ∷ []) ∷ ts
push c ((d ∷ t) ∷ ts) = if same_class c d then (c ∷ d ∷ t) ∷ ts else (c ∷ []) ∷ (d ∷ t) ∷ ts

unfoldable pub tokenize : Text → List Text
tokenize [] = []
tokenize (c ∷ s) = push c (tokenize s)

-- One row of the table from the row above: `diagonal` and `left` are the neighbours of the next cell.
unfoldable pub lcs_row : Text → ℕ → List ℕ → ℕ → List Text → List ℕ
lcs_row a diagonal above left [] = []
lcs_row a diagonal [] left (b ∷ bs) = []
lcs_row a diagonal (up ∷ above) left (b ∷ bs) =
    let cell = if text_eq a b then diagonal + 1 else max up left in
    cell ∷ lcs_row a up above cell bs

-- The rows from a given row on, without the column of zeros at their left.
unfoldable pub lcs_rows : List ℕ → List Text → List Text → List (List ℕ)
lcs_rows row [] bs = row ∷ []
lcs_rows row (a ∷ tokens_a) bs = row ∷ lcs_rows (lcs_row a 0 row 0 bs) tokens_a bs

abbrev pub zeros : List Text → List ℕ
zeros [] = []
zeros (b ∷ bs) = 0 ∷ zeros bs

unfoldable pub lcs_table : List Text → List Text → List (List ℕ)
unfolding lcs_rows lcs_row
lcs_table tokens_a tokens_b = lcs_rows (zeros tokens_b) tokens_a tokens_b

-- `dp[i][j]`
abbrev pub cell : List (List ℕ) → ℕ → ℕ → ℕ
cell dp i zero = 0
cell dp i (suc j) = get_or (get_or dp i []) j 0

-- The `while` loop from (i, j) down to (0, 0). The loop appends to a stack that is reversed at the
-- end; here each token is put before the later ones.
unfoldable pub trace_back :
    List Text → List Text → List (List ℕ) → ℕ → ℕ → List InlineDiffToken → List InlineDiffToken
trace_back xs ys dp zero zero out = out
trace_back xs ys dp zero (suc j) out =
    trace_back xs ys dp zero j (record { type = added; text = get_or ys j [] } ∷ out)
trace_back xs ys dp (suc i) zero out =
    trace_back xs ys dp i zero (record { type = deleted; text = get_or xs i [] } ∷ out)
trace_back xs ys dp (suc i) (suc j) out = elim (text_eq (get_or xs i []) (get_or ys j [])) [
  | true ↦ trace_back xs ys dp i j (record { type = unchanged; text = get_or xs i [] } ∷ out)
  | false ↦ elim (leb (cell dp i (suc j)) (cell dp (suc i) j)) [
    | true ↦ trace_back xs ys dp (suc i) j (record { type = added; text = get_or ys j [] } ∷ out)
    | false ↦ trace_back xs ys dp i (suc j) (record { type = deleted; text = get_or xs i [] } ∷ out)
  ]
]

abbrev pub same_type : TokenType → TokenType → Bool
same_type added added = true
same_type deleted deleted = true
same_type unchanged unchanged = true
same_type _ _ = false

-- The merging loop. `merged` is kept with its last token first.
unfoldable pub merge_into : List InlineDiffToken → List InlineDiffToken → List InlineDiffToken
merge_into merged [] = reverse merged
merge_into [] (token ∷ rest) = merge_into (token ∷ []) rest
merge_into (last ∷ merged) (token ∷ rest) =
    merge_into
      (if same_type last.type token.type
        then record { type = token.type; text = last.text ++ token.text } ∷ merged
        else token ∷ last ∷ merged)
      rest

-- `none` is the ValueError for a table that is too large
unfoldable pub lcs_diff : List Text → List Text → Option (List InlineDiffToken)
lcs_diff tokens_a tokens_b =
    let n = length tokens_a in
    let m = length tokens_b in
    if ltb max_lcs_cells (n * m)
    then none
    else some (merge_into [] (trace_back tokens_a tokens_b (lcs_table tokens_a tokens_b) n m []))

-- `text or ""`
abbrev pub or_empty : Option Text → Text
or_empty none = []
or_empty (some t) = t

abbrev pub whole : Text → List InlineDiffToken
whole [] = []
whole (c ∷ t) = record { type = unchanged; text = c ∷ t } ∷ []

-- the handler of the exception
abbrev pub or_skipped : Option (List InlineDiffToken) → List InlineDiffToken × Bool
or_skipped none = ([], true)
or_skipped (some tokens) = (tokens, false)

-- `TextDiffer.diff`: the tokens, and whether the diff was skipped
unfoldable pub text_diff : Option Text → Option Text → ℕ → List InlineDiffToken × Bool
text_diff text_a text_b max_length =
    let a = or_empty text_a in
    let b = or_empty text_b in
    if ltb max_length (length a + length b)
    then ([], true)
    else if text_eq a b
    then (whole a, false)
    else or_skipped (lcs_diff (tokenize a) (tokenize b))
