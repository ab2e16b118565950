-- ===== src/Filter/Placeholders.antt =====
-- The placeholders of a filter's SQL against its parameters.
use mathlib.Core.Bool.{and-eq-true_iff}
use mimir_backend.Prelude.{
  ℕ, zero, suc, ◌+◌, String, ◌≡◌, refl, ◌∙◌, Bool, true, false, List, [], ◌∷◌, ◌++◌, arith, inl,
  inr, Bool-cases, all, ◌==◌, if◌then◌else◌, Text, codes, length, length-append, str_eq, eq_iff,
}
use mimir_backend.Prelude.Raises.{Result, ok, err, returned, ok-injective}
use mimir_backend.Filter.Expression.{
  Value, FilterCondition, FilterExpression, RawCondition, RawFilter, FilterError, allowed_ops,
  allowed_fields, is_among, collect, Context, parse_condition, parse_filter_expression, or_none,
  substitute_condition, substitute_ctx,
}
use mimir_backend.Filter.Sql.{
  Fragment, column_of, values_of, join_with, repeated, placeholders, cond_to_sql, clauses_of,
  params_of, or_clause, and_clause, build_sql_filter, filter_to_sql,
}
use mimir_backend.Filter.Slots.{
  all_slots, all_slots-append, all_slots-listed, or_clause_slots, and_clause_slots, all-append,
}
use mimir_backend.Filter.Substituted.{
  collect-cons, collect-all, is_valid, parse_condition-is_valid, substitute_condition-is_valid,
}

-- How many `%` a text has.
abbrev pub marks : Text → ℕ
marks [] = 0
marks (c ∷ s) = (if c == b'%' then 1 else 0) + marks s

abbrev pub all_marks : List Text → ℕ
all_marks [] = 0
all_marks (t ∷ ts) = marks t + all_marks ts

pub marks-append : (s t : Text) → marks (s ++ t) ≡ marks s + marks t
marks-append [] t = omega arith
marks-append (c ∷ s) t = omega (arith, marks-append s t)

all_marks-append : (xs ys : List Text) → all_marks (xs ++ ys) ≡ all_marks xs + all_marks ys
all_marks-append [] ys = omega arith
all_marks-append (x ∷ xs) ys = omega (arith, all_marks-append xs ys)

marks-join_with :
    (separator : Text) (ts : List Text)
    → marks separator ≡ 0
    → marks (join_with separator ts) ≡ all_marks ts
marks-join_with separator [] h = refl
marks-join_with separator (t ∷ []) h = omega arith
marks-join_with separator (t ∷ u ∷ ts) h = omega (
  arith,
  marks-append t (separator ++ join_with separator (u ∷ ts)),
  marks-append separator (join_with separator (u ∷ ts)),
  marks-join_with separator (u ∷ ts) h,
)

all_marks-repeated : (n : ℕ) → all_marks (repeated n (codes "%s")) ≡ n
all_marks-repeated zero = refl
all_marks-repeated (suc n) = omega (arith, all_marks-repeated n)

marks-placeholders : (n : ℕ) → marks (placeholders n) ≡ n
unfolding placeholders
marks-placeholders n =
    marks-join_with (codes ",") (repeated n (codes "%s")) refl ∙ all_marks-repeated n

-- No column of an allowed field has a `%`.
marks-column_of :
    (field : String) (ks : List String)
    → all (λ (k : String). marks (codes (column_of k)) == 0) ks ≡ true
    → is_among field ks ≡ true
    → marks (codes (column_of field)) ≡ 0
marks-column_of field [] h a = absurd (cc a)
marks-column_of field (k ∷ ks) h a = elim (Bool-cases (str_eq k field)) [
  | inl e ↦ rw (← (eq_iff k field).0 e) (ground arith)
  | inr e ↦ marks-column_of field ks (ground arith) (rw e at a)
]

-- A text without a `%`.
unmarked : (s : Text) → marks s ≡ 0 → all_slots s ≡ true
unmarked [] h = refl
unmarked (c ∷ s) h = ground (arith, unmarked s)

columns_plain : all (λ (k : String). marks (codes (column_of k)) == 0) allowed_fields ≡ true
unfolding column_of
columns_plain = refl

-- A list of values between a column and a bracket.
marks-listed :
    (col start : Text) (n : ℕ)
    → marks col ≡ 0
    → marks start ≡ 0
    → marks (col ++ (start ++ (placeholders n ++ codes ")"))) ≡ n
marks-listed col start n h k = omega (
  arith,
  marks-append col (start ++ (placeholders n ++ codes ")")),
  marks-append start (placeholders n ++ codes ")"),
  marks-append (placeholders n) (codes ")"),
  marks-placeholders n,
)

abbrev Balanced : Fragment → Type 0
Balanced f = (marks f.0 ≡ length f.1) × (all_slots f.0 ≡ true)

abbrev BalancedResult : Result FilterError Fragment → Type 0
BalancedResult (ok f) = Balanced f
BalancedResult (err e) = Unit

choose :
    (b : Bool) (x y : Result FilterError Fragment)
    → BalancedResult x
    → BalancedResult y
    → BalancedResult (if b then x else y)
choose true x y p q = p
choose false x y p q = q

cond_to_sql-Balanced :
    (c : FilterCondition) → is_among c.field allowed_fields ≡ true → BalancedResult (cond_to_sql c)
unfolding cond_to_sql
cond_to_sql-Balanced c h =
    let col = codes (column_of c.field) in
    let n = length (values_of c.value) in
    let plain : marks col ≡ 0 = marks-column_of c.field allowed_fields columns_plain h in
    let slots : all_slots col ≡ true = unmarked col plain in
    let compared : (end : Text)
        → marks end ≡ 1
        → all_slots end ≡ true
        → (marks (col ++ end) ≡ 1) × (all_slots (col ++ end) ≡ true) =
      λ end one ends. (omega (arith, marks-append col end), all_slots-append col end slots ends) in
    let among : (start : Text)
        → marks start ≡ 0
        → all_slots start ≡ true
        → (marks (col ++ (start ++ (placeholders n ++ codes ")"))) ≡ n)
          × (all_slots (col ++ (start ++ (placeholders n ++ codes ")"))) ≡ true) =
      λ start no starts.
        (marks-listed col start n plain no, all_slots-listed col start n slots starts) in
    choose (str_eq c.op "eq") _ _ (compared (codes " = %s") refl refl) (
      choose (str_eq c.op "neq") _ _ (compared (codes " != %s") refl refl) (
        choose (str_eq c.op "in") _ _ (among (codes " IN (") refl refl) (
          choose (str_eq c.op "not_in") _ _ (among (codes " NOT IN (") refl refl) (
            choose (str_eq c.op "contains") _ _
              (
                omega (
                  arith,
                  marks-append (codes "%s = ANY(") (col ++ codes ")"),
                  marks-append col (codes ")"),
                ),
                all_slots-append (codes "%s = ANY(") (col ++ codes ")") refl
                    (all_slots-append col (codes ")") slots refl),
              )
              tt))))

Balanced-of :
    (r : Result FilterError Fragment) (f : Fragment) → r ≡ ok f → BalancedResult r → Balanced f
Balanced-of (ok g) f e b = rw (← ok-injective e) b
Balanced-of (err x) f e b = absurd (cc e)

conditions-Balanced :
    (cs : List FilterCondition) (fs : List Fragment)
    → collect cond_to_sql cs ≡ ok fs
    → all is_valid cs ≡ true
    → (all_marks (clauses_of fs) ≡ length (params_of fs)) × (all all_slots (clauses_of fs) ≡ true)
conditions-Balanced [] fs h v = rw (← ok-injective h) (refl, refl)
conditions-Balanced (c ∷ cs) fs h v =
    let (f, gs, first, rest, split) = collect-cons cond_to_sql c cs h in
    let (here, there) = (and-eq-true_iff (is_valid c) (all is_valid cs)).0 v in
    let (op, field) =
      (and-eq-true_iff (is_among c.op allowed_ops) (is_among c.field allowed_fields)).0 here in
    let (one, slot) = Balanced-of (cond_to_sql c) f first (cond_to_sql-Balanced c field) in
    let (more, slots) = conditions-Balanced cs gs rest there in
    rw split (omega (arith, one, more, length-append f.1 (params_of gs)), ground arith)

marks-or_clause : (ts : List Text) → all_marks (or_clause ts) ≡ all_marks ts
marks-or_clause [] = refl
marks-or_clause (t ∷ ts) = omega (
  arith,
  marks-append (join_with (codes " OR ") (t ∷ ts)) (codes ")"),
  marks-join_with (codes " OR ") (t ∷ ts) refl,
)

marks-and_clause : (ts : List Text) → marks (and_clause ts) ≡ all_marks ts
marks-and_clause [] = refl
marks-and_clause (t ∷ ts) = omega (
  arith,
  marks-append (join_with (codes " AND ") (t ∷ ts)) (codes ")"),
  marks-join_with (codes " AND ") (t ∷ ts) refl,
)

build-Balanced :
    (expr : FilterExpression) (f : Fragment)
    → all is_valid expr.and_ ≡ true
    → all is_valid expr.or_ ≡ true
    → build_sql_filter expr ≡ ok f
    → Balanced f
unfolding build_sql_filter
build-Balanced expr f a o h =
    let (fs, first, rest) = returned (collect cond_to_sql expr.and_) _ h in
    let (gs, second, last) = returned (collect cond_to_sql expr.or_) _ rest in
    let (ands, and_slots) = conditions-Balanced expr.and_ fs first a in
    let (ors, or_slots) = conditions-Balanced expr.or_ gs second o in
    rw (← ok-injective last) (
      omega (
        arith,
        marks-and_clause (clauses_of fs ++ or_clause (clauses_of gs)),
        all_marks-append (clauses_of fs) (or_clause (clauses_of gs)),
        marks-or_clause (clauses_of gs),
        ands,
        ors,
        length-append (params_of fs) (params_of gs),
      ),
      and_clause_slots (clauses_of fs ++ or_clause (clauses_of gs)) (
          all-append (clauses_of fs) (or_clause (clauses_of gs)) and_slots
            (or_clause_slots (clauses_of gs) or_slots)),
    )

all-true : (raws : List RawCondition) → all (λ (raw : RawCondition). true) raws ≡ true
all-true [] = refl
all-true (raw ∷ raws) = all-true raws

parsed-is_valid :
    (raws : List RawCondition) {cs : List FilterCondition}
    → collect parse_condition raws ≡ ok cs
    → all is_valid cs ≡ true
parsed-is_valid raws h =
    collect-all parse_condition (λ raw. true) is_valid parse_condition-is_valid raws h
      (all-true raws)

substituted-is_valid :
    (ctx : Context) (cs : List FilterCondition) {ds : List FilterCondition}
    → collect (substitute_condition ctx) cs ≡ ok ds
    → all is_valid cs ≡ true
    → all is_valid ds ≡ true
substituted-is_valid ctx cs h v =
    collect-all (substitute_condition ctx) is_valid is_valid (substitute_condition-is_valid ctx) cs
      h v

-- Whatever filter is stored and whatever the context holds: when the filter is translated, its SQL
-- has as many percent signs as there are parameters, and each percent sign is followed by an `s`:
-- it has exactly one `%s` for each parameter, and no other percent sign.
pub filter_to_sql-Balanced :
    (raw : RawFilter) (ctx : Context) (sql : Text) (params : List Value)
    → filter_to_sql raw ctx ≡ ok (sql, params)
    → (marks sql ≡ length params) × (all_slots sql ≡ true)
unfolding filter_to_sql parse_filter_expression substitute_ctx
filter_to_sql-Balanced raw ctx sql params h =
    let (parsed, p, filled) = returned (parse_filter_expression raw) _ h in
    let (ands, p1, p2) = returned (collect parse_condition (or_none raw.and_)) _ p in
    let (ors, p3, p4) = returned (collect parse_condition (or_none raw.or_)) _ p2 in
    let (expr, q, built) = returned (substitute_ctx parsed ctx) _ filled in
    let (ands', q1, q2) = returned (collect (substitute_condition ctx) parsed.and_) _ q in
    let (ors', q3, q4) = returned (collect (substitute_condition ctx) parsed.or_) _ q2 in
    build-Balanced expr (sql, params)
      (rw (← ok-injective q4) (
        substituted-is_valid ctx parsed.and_ q1
          (rw (← ok-injective p4) (parsed-is_valid (or_none raw.and_) p1))))
      (rw (← ok-injective q4) (
        substituted-is_valid ctx parsed.or_ q3
          (rw (← ok-injective p4) (parsed-is_valid (or_none raw.or_) p3))))
      built
