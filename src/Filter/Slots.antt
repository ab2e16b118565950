-- ===== src/Filter/Slots.antt =====
-- Placeholders in the texts that app/services/filter_expression.py puts together.
use mathlib.Core.Bool.{and-eq-true_iff}
use mimir_backend.Prelude.{
  ℕ, zero, suc, ◌≡◌, refl, Bool, true, false, ◌&&◌, List, [], ◌∷◌, ◌++◌, arith, all, ◌==◌,
  if◌then◌else◌, Text, codes,
}
use mimir_backend.Filter.Sql.{join_with, repeated, placeholders, or_clause, and_clause}

abbrev starts_s : Text → Bool
starts_s [] = false
starts_s (c ∷ s) = c == b's'

-- Each `%` of the text is followed by an `s`, so that it starts a placeholder.
abbrev pub all_slots : Text → Bool
all_slots [] = true
all_slots (c ∷ s) = (if c == b'%' then starts_s s else true) && all_slots s

starts_s-append : (s t : Text) → starts_s s ≡ true → starts_s (s ++ t) ≡ true
starts_s-append [] t h = absurd (cc h)
starts_s-append (c ∷ s) t h = h

pub all_slots-append :
    (s t : Text) → all_slots s ≡ true → all_slots t ≡ true → all_slots (s ++ t) ≡ true
all_slots-append [] t h k = k
all_slots-append (c ∷ s) t h k = ground (arith, starts_s-append s t, all_slots-append s t)

all_slots-join_with :
    (separator : Text) (ts : List Text)
    → all_slots separator ≡ true
    → all all_slots ts ≡ true
    → all_slots (join_with separator ts) ≡ true
all_slots-join_with separator [] h k = refl
all_slots-join_with separator (t ∷ []) h k = ground arith
all_slots-join_with separator (t ∷ u ∷ ts) h k =
    let (first, rest) = (and-eq-true_iff (all_slots t) (all all_slots (u ∷ ts))).0 k in
    all_slots-append t (separator ++ join_with separator (u ∷ ts)) first (
      all_slots-append separator (join_with separator (u ∷ ts)) h
        (all_slots-join_with separator (u ∷ ts) h rest))

repeated_slots : (n : ℕ) → all all_slots (repeated n (codes "%s")) ≡ true
repeated_slots zero = refl
repeated_slots (suc n) = repeated_slots n

all_slots-placeholders : (n : ℕ) → all_slots (placeholders n) ≡ true
unfolding placeholders
all_slots-placeholders n =
    all_slots-join_with (codes ",") (repeated n (codes "%s")) refl (repeated_slots n)

-- A list of values between a column and a bracket.
pub all_slots-listed :
    (col start : Text) (n : ℕ)
    → all_slots col ≡ true
    → all_slots start ≡ true
    → all_slots (col ++ (start ++ (placeholders n ++ codes ")"))) ≡ true
all_slots-listed col start n h k = all_slots-append col (start ++ (placeholders n ++ codes ")")) h (
    all_slots-append start (placeholders n ++ codes ")") k
      (all_slots-append (placeholders n) (codes ")") (all_slots-placeholders n) refl))

-- Texts between brackets.
all_slots-enclosed :
    (opening separator : Text) (ts : List Text)
    → all_slots opening ≡ true
    → all_slots separator ≡ true
    → all all_slots ts ≡ true
    → all_slots (opening ++ (join_with separator ts ++ codes ")")) ≡ true
all_slots-enclosed opening separator ts h k l =
    all_slots-append opening (join_with separator ts ++ codes ")") h (
      all_slots-append (join_with separator ts) (codes ")") (all_slots-join_with separator ts k l)
        refl)

pub or_clause_slots :
    (ts : List Text) → all all_slots ts ≡ true → all all_slots (or_clause ts) ≡ true
or_clause_slots [] h = refl
or_clause_slots (t ∷ ts) h =
    let clause = all_slots-enclosed (codes "(") (codes " OR ") (t ∷ ts) refl refl h in ground arith

pub and_clause_slots : (ts : List Text) → all all_slots ts ≡ true → all_slots (and_clause ts) ≡ true
and_clause_slots [] h = refl
and_clause_slots (t ∷ ts) h =
    all_slots-enclosed (codes "AND (") (codes " AND ") (t ∷ ts) refl refl h

pub all-append :
    (xs ys : List Text)
    → all all_slots xs ≡ true
    → all all_slots ys ≡ true
    → all all_slots (xs ++ ys) ≡ true
all-append [] ys h k = k
all-append (x ∷ xs) ys h k = ground (arith, all-append xs ys)
