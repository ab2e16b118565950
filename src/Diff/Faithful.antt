-- ===== src/Diff/Faithful.antt =====
-- A text diff holds both texts: without the added parts it is the old one, without the deleted
-- parts the new one.
use mathlib.Core.List.{reverse, reverse-cons}
use mimir_backend.Prelude.{
  ℕ, zero, suc, ◌+◌, ◌*◌, ◌≤◌, ◌<◌, ◌≡◌, refl, sym, ap, ◌∙◌, true, false, List, [], ◌∷◌, ◌++◌,
  Option, some, append-nil, append_assoc, arith, inl, inr, Bool-cases, Option-cases, not, ◌&&◌,
  ◌||◌, ltb, leb, length, get_or, take, take-suc, take-length, Text, text_eq, text_eq-eq,
}
use mimir_backend.Diff.Inline.{
  added, deleted, InlineDiffToken, push, tokenize, cell, trace_back, same_type, merge_into,
  lcs_diff, lcs_table, text_diff, or_empty, whole, max_lcs_cells,
}

-- `"".join(tokens)`
abbrev pub join : List Text → Text
join [] = []
join (t ∷ ts) = t ++ join ts

-- What a token gives to the old text, and to the new one.
abbrev pub old_part : InlineDiffToken → Text
old_part k = elim k.type [ added ↦ [] | _ ↦ k.text ]

abbrev pub new_part : InlineDiffToken → Text
new_part k = elim k.type [ deleted ↦ [] | _ ↦ k.text ]

abbrev pub side : (InlineDiffToken → Text) → List InlineDiffToken → Text
side part [] = []
side part (k ∷ ks) = part k ++ side part ks

abbrev pub old_side : List InlineDiffToken → Text
old_side = side old_part

abbrev pub new_side : List InlineDiffToken → Text
new_side = side new_part

join-append : (xs ys : List Text) → join (xs ++ ys) ≡ join xs ++ join ys
join-append [] ys = refl
join-append (x ∷ xs) ys = rw (join-append xs ys) (sym (append_assoc x (join xs) (join ys)))

join-push : (c : ℕ) (ts : List Text) → join (push c ts) ≡ c ∷ join ts
join-push c [] = refl
join-push c ([] ∷ ts) = ground arith
join-push c ((d ∷ t) ∷ ts) = ground arith

-- The tokens of a text, joined, are the text.
pub join-tokenize : (s : Text) → join (tokenize s) ≡ s
unfolding tokenize
join-tokenize [] = refl
join-tokenize (c ∷ s) = join-push c (tokenize s) ∙ ap (c ∷◌) (join-tokenize s)

join-take-suc :
    (xs : List Text) (i : ℕ) (out : Text)
    → i < length xs
    → join (take i xs) ++ (get_or xs i [] ++ out) ≡ join (take (suc i) xs) ++ out
join-take-suc xs i out h =
    rw (take-suc xs i [] h, join-append (take i xs) (get_or xs i [] ∷ []), append-nil)
      (sym (append_assoc (join (take i xs)) (get_or xs i []) out))

module _ (xs ys : List Text) (dp : List (List ℕ)) where
  old_side-trace_back :
      (i j : ℕ) (out : List InlineDiffToken)
      → i ≤ length xs
      → old_side (trace_back xs ys dp i j out) ≡ join (take i xs) ++ old_side out
  unfolding trace_back
  old_side-trace_back zero zero out h = refl
  old_side-trace_back zero (suc j) out h = old_side-trace_back zero j _ h
  old_side-trace_back (suc i) zero out h =
      old_side-trace_back i zero _ (omega arith) ∙ join-take-suc xs i (old_side out) h
  old_side-trace_back (suc i) (suc j) out h =
      elim (Bool-cases (text_eq (get_or xs i []) (get_or ys j []))) [
        | inl e ↦
            rw (e, trace_back)
              (old_side-trace_back i j _ (omega arith) ∙ join-take-suc xs i (old_side out) h)
        | inr e ↦ elim (Bool-cases (leb (cell dp i (suc j)) (cell dp (suc i) j))) [
          | inl k ↦ rw (e, k, trace_back) (old_side-trace_back (suc i) j _ h)
          | inr k ↦
              rw (e, k, trace_back)
                (old_side-trace_back i (suc j) _ (omega arith)
                  ∙ join-take-suc xs i (old_side out) h)
        ]
      ]

  new_side-trace_back :
      (i j : ℕ) (out : List InlineDiffToken)
      → j ≤ length ys
      → new_side (trace_back xs ys dp i j out) ≡ join (take j ys) ++ new_side out
  unfolding trace_back
  new_side-trace_back zero zero out h = refl
  new_side-trace_back zero (suc j) out h =
      new_side-trace_back zero j _ (omega arith) ∙ join-take-suc ys j (new_side out) h
  new_side-trace_back (suc i) zero out h = new_side-trace_back i zero _ h
  new_side-trace_back (suc i) (suc j) out h =
      elim (Bool-cases (text_eq (get_or xs i []) (get_or ys j []))) [
        | inl e ↦
            rw (e, trace_back)
              (new_side-trace_back i j _ (omega arith)
                ∙ rw (text_eq-eq (get_or xs i []) (get_or ys j []) e)
                    (join-take-suc ys j (new_side out) h))
        | inr e ↦ elim (Bool-cases (leb (cell dp i (suc j)) (cell dp (suc i) j))) [
          | inl k ↦
              rw (e, k, trace_back)
                (new_side-trace_back (suc i) j _ (omega arith)
                  ∙ join-take-suc ys j (new_side out) h)
          | inr k ↦ rw (e, k, trace_back) (new_side-trace_back i (suc j) _ h)
        ]
      ]

-- Merging neighbours changes neither side.
module _ (part : InlineDiffToken → Text)
    (joins : (k l : InlineDiffToken)
      → same_type k.type l.type ≡ true
      → part (record { type = l.type; text = k.text ++ l.text }) ≡ part k ++ part l) where
  side-append : (xs ys : List InlineDiffToken) → side part (xs ++ ys) ≡ side part xs ++ side part ys
  side-append [] ys = refl
  side-append (k ∷ xs) ys =
      rw (side-append xs ys) (sym (append_assoc (part k) (side part xs) (side part ys)))

  side-reverse-cons :
      (k : InlineDiffToken) (merged : List InlineDiffToken) (rest : Text)
      → side part (reverse (k ∷ merged)) ++ rest ≡ side part (reverse merged) ++ (part k ++ rest)
  side-reverse-cons k merged rest =
      rw (reverse-cons k merged, side-append (reverse merged) (k ∷ []), append-nil (part k))
        (append_assoc (side part (reverse merged)) (part k) rest)

  side-merge_into :
      (merged ks : List InlineDiffToken)
      → side part (merge_into merged ks) ≡ side part (reverse merged) ++ side part ks
  unfolding merge_into
  side-merge_into merged [] = sym (append-nil (side part (reverse merged)))
  side-merge_into [] (k ∷ ks) = side-merge_into (k ∷ []) ks ∙ side-reverse-cons k [] (side part ks)
  side-merge_into (l ∷ merged) (k ∷ ks) = elim (Bool-cases (same_type l.type k.type)) [
    | inl e ↦ rw e (
        side-merge_into (record { type = k.type; text = l.text ++ k.text } ∷ merged) ks
        ∙ side-reverse-cons (record { type = k.type; text = l.text ++ k.text }) merged
            (side part ks)
        ∙ rw (joins l k e, append_assoc (part l) (part k) (side part ks))
            (sym (side-reverse-cons l merged (part k ++ side part ks))))
    | inr e ↦
        rw e (side-merge_into (k ∷ l ∷ merged) ks ∙ side-reverse-cons k (l ∷ merged) (side part ks))
  ]

old_part-joins :
    (k l : InlineDiffToken)
    → same_type k.type l.type ≡ true
    → old_part (record { type = l.type; text = k.text ++ l.text }) ≡ old_part k ++ old_part l
old_part-joins k l h = ground arith

new_part-joins :
    (k l : InlineDiffToken)
    → same_type k.type l.type ≡ true
    → new_part (record { type = l.type; text = k.text ++ l.text }) ≡ new_part k ++ new_part l
new_part-joins k l h = ground arith

module _ (xs ys : List Text) (dp : List (List ℕ)) where
  traced : List InlineDiffToken
  traced = merge_into [] (trace_back xs ys dp (length xs) (length ys) [])

  old_side-traced : old_side traced ≡ join xs
  unfolding traced
  old_side-traced =
      side-merge_into old_part old_part-joins [] _
      ∙ old_side-trace_back xs ys dp (length xs) (length ys) [] (omega arith)
      ∙ rw (take-length xs) (append-nil (join xs))

  new_side-traced : new_side traced ≡ join ys
  unfolding traced
  new_side-traced =
      side-merge_into new_part new_part-joins [] _
      ∙ new_side-trace_back xs ys dp (length xs) (length ys) [] (omega arith)
      ∙ rw (take-length ys) (append-nil (join ys))

sides-lcs_diff :
    (xs ys : List Text) (ks : List InlineDiffToken)
    → lcs_diff xs ys ≡ some ks
    → (old_side ks ≡ join xs) × (new_side ks ≡ join ys)
unfolding lcs_diff traced
sides-lcs_diff xs ys ks h = elim (Bool-cases (ltb max_lcs_cells (length xs * length ys))) [
  | inl e ↦ absurd (cc (rw e at h))
  | inr e ↦
      let same : traced xs ys (lcs_table xs ys) ≡ ks = ground arith in
      (
        rw (← same) (old_side-traced xs ys (lcs_table xs ys)),
        rw (← same) (new_side-traced xs ys (lcs_table xs ys)),
      )
]

side-whole : (a : Text) → (old_side (whole a) ≡ a) × (new_side (whole a) ≡ a)
side-whole [] = (refl, refl)
side-whole (c ∷ a) = (append-nil (c ∷ a), append-nil (c ∷ a))

-- A text diff that is not skipped holds both texts in full: its unchanged and deleted parts, in
-- their order, are the old text, and its unchanged and added parts the new one.
pub text_diff-faithful :
    (text_a text_b : Option Text) (max_length : ℕ)
    → (text_diff text_a text_b max_length).1 ≡ false
    → (old_side (text_diff text_a text_b max_length).0 ≡ or_empty text_a)
      × (new_side (text_diff text_a text_b max_length).0 ≡ or_empty text_b)
unfolding text_diff
text_diff-faithful text_a text_b max_length h =
    elim (Bool-cases (ltb max_length (length (or_empty text_a) + length (or_empty text_b)))) [
      | inl e ↦ absurd (cc (rw e at h))
      | inr e ↦ elim (Bool-cases (text_eq (or_empty text_a) (or_empty text_b))) [
        | inl k ↦
            rw (e, k)
              (
                (side-whole (or_empty text_a)).0,
                (side-whole (or_empty text_a)).1 ∙ text_eq-eq (or_empty text_a) (or_empty text_b) k,
              )
        | inr k ↦
            elim (Option-cases
              (lcs_diff (tokenize (or_empty text_a)) (tokenize (or_empty text_b)))) [
                | inl n ↦ absurd (cc (rw (e, k, n) at h))
                | inr (ks, n) ↦
                    let (old, new) =
                      sides-lcs_diff (tokenize (or_empty text_a)) (tokenize (or_empty text_b)) ks
                        n in
                    rw (e, k, n)
                      (old ∙ join-tokenize (or_empty text_a), new ∙ join-tokenize (or_empty text_b))
              ]
      ]
    ]

-- A text diff is skipped exactly when the two texts together are longer than the limit, or when
-- they differ and the table of their tokens would have too many cells.
pub text_diff-skips :
    (text_a text_b : Option Text) (max_length : ℕ)
    → let a = or_empty text_a in
      let b = or_empty text_b in
      (text_diff text_a text_b max_length).1 ≡ (
        ltb max_length (length a + length b)
        || not (text_eq a b) && ltb max_lcs_cells (length (tokenize a) * length (tokenize b)))
unfolding text_diff lcs_diff
text_diff-skips text_a text_b max_length = ground arith
