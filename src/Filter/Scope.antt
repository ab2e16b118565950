-- ===== src/Filter/Scope.antt =====
-- A scope filter restricts, and no value of the access context gets into its SQL.
use mimir_backend.Prelude.{
  ℕ, str_eq, String, ◌≡◌, refl, sym, ap, ◌∙◌, Bool, true, false, List, [], ◌∷◌, ◌++◌, map, inl, inr,
  Bool-cases, Text, codes, length, if◌then◌else◌,
}
use mimir_backend.Prelude.Raises.{Result, ok, err, returned, ok-injective}
use mimir_backend.Filter.Expression.{
  Value, FilterCondition, FilterExpression, FilterError, collect, Context, RawFilter,
  parse_filter_expression, substitute_ctx,
}
use mimir_backend.Filter.Sql.{
  Fragment, Lookup, failed, missing, defined, column_of, values_of, placeholders, cond_to_sql,
  clauses_of, or_clause, and_clause, build_sql_filter, filter_to_sql, is_blank, not_empty,
  apply_scope_filter,
}
use mimir_backend.Filter.Substituted.{collect-cons}

-- All that the SQL of a condition may depend on: its field, its operator, and how many values.
abbrev pub shape : FilterCondition → String × String × ℕ
shape c = (c.field, c.op, length (values_of c.value))

abbrev fragment_sql : Result FilterError Fragment → Text
fragment_sql (ok f) = f.0
fragment_sql (err e) = []

-- The clause that a shape gives.
abbrev clause_of : String × String × ℕ → Text
clause_of (field, op, n) =
    let col = codes (column_of field) in
    if str_eq op "eq"
    then col ++ codes " = %s"
    else if str_eq op "neq"
    then col ++ codes " != %s"
    else if str_eq op "in"
    then col ++ (codes " IN (" ++ (placeholders n ++ codes ")"))
    else if str_eq op "not_in"
    then col ++ (codes " NOT IN (" ++ (placeholders n ++ codes ")"))
    else if str_eq op "contains"
    then codes "%s = ANY(" ++ (col ++ codes ")")
    else []

moved_in :
    (b : Bool) (x y : Result FilterError Fragment)
    → fragment_sql (if b then x else y) ≡ (if b then fragment_sql x else fragment_sql y)
moved_in true x y = refl
moved_in false x y = refl

sql-cond_to_sql : (c : FilterCondition) → fragment_sql (cond_to_sql c) ≡ clause_of (shape c)
unfolding cond_to_sql
sql-cond_to_sql c = simp moved_in

clauses-shape :
    (cs : List FilterCondition) (fs : List Fragment)
    → collect cond_to_sql cs ≡ ok fs
    → clauses_of fs ≡ map clause_of (map shape cs)
clauses-shape [] fs h = rw (← ok-injective h) refl
clauses-shape (c ∷ cs) fs h =
    let (f, gs, first, rest, split) = collect-cons cond_to_sql c cs h in
    let head : f.0 ≡ clause_of (shape c) = sym (ap fragment_sql first) ∙ sql-cond_to_sql c in
    rw (split, head, clauses-shape cs gs rest) refl

sql-shape :
    (e : FilterExpression) (f : Fragment)
    → build_sql_filter e ≡ ok f
    → f.0
      ≡ and_clause (map clause_of (map shape e.and_) ++ or_clause (map clause_of (map shape e.or_)))
unfolding build_sql_filter
sql-shape e f h =
    let (fs, first, rest) = returned (collect cond_to_sql e.and_) _ h in
    let (gs, second, last) = returned (collect cond_to_sql e.or_) _ rest in
    rw (← ok-injective last, clauses-shape e.and_ fs first, clauses-shape e.or_ gs second) refl

-- The SQL of an expression depends on the fields, the operators and the numbers of values alone:
-- two expressions that agree in these have the same SQL, whatever their values are.
pub build_sql_filter-shape :
    (e d : FilterExpression) (f g : Fragment)
    → map shape e.and_ ≡ map shape d.and_
    → map shape e.or_ ≡ map shape d.or_
    → build_sql_filter e ≡ ok f
    → build_sql_filter d ≡ ok g
    → f.0 ≡ g.0
build_sql_filter-shape e d f g a o h k = sql-shape e f h ∙ rw (a, o) (sym (sql-shape d g k))

abbrev Restricts : Text → Type 0
Restricts sql = (rest : Text) × (sql ≡ codes "AND (" ++ rest)

starts : (c : ℕ) (s : Text) (ts : List Text) → and_clause ts ≡ c ∷ s → Restricts (c ∷ s)
starts c s [] h = absurd (cc h)
starts c s (t ∷ ts) h = (_, sym h)

filter_to_sql-Restricts :
    (raw : RawFilter) (ctx : Context) (c : ℕ) (s : Text) (params : List Value)
    → filter_to_sql raw ctx ≡ ok (c ∷ s, params)
    → Restricts (c ∷ s)
unfolding filter_to_sql build_sql_filter
filter_to_sql-Restricts raw ctx c s params h =
    let (parsed, p, filled) = returned (parse_filter_expression raw) _ h in
    let (e, q, built) = returned (substitute_ctx parsed ctx) _ filled in
    let (fs, first, rest) = returned (collect cond_to_sql e.and_) _ built in
    let (gs, second, last) = returned (collect cond_to_sql e.or_) _ rest in
    starts c s (clauses_of fs ++ or_clause (clauses_of gs))
      (ap (λ (f : Fragment). f.0) (ok-injective last))

not_empty-Restricts :
    (r : Result FilterError Fragment) (sql : Text) (params : List Value)
    → ((c : ℕ) (s : Text) (ps : List Value) → r ≡ ok (c ∷ s, ps) → Restricts (c ∷ s))
    → not_empty r ≡ ok (sql, params)
    → Restricts sql × (r ≡ ok (sql, params))
not_empty-Restricts (err e) sql params start h = absurd (cc h)
not_empty-Restricts (ok ([], ps)) sql params start h = absurd (cc h)
not_empty-Restricts (ok (c ∷ s, ps)) sql params start h =
    let same = ok-injective h in
    (rw (← ap (λ (f : Fragment). f.0) same) (start c s ps refl), ap ok same)

-- A scope filter fails closed: whatever the lookup answers, when a filter is applied at all, the
-- lookup has found a stored filter that is not blank, the SQL and the parameters are the translation
-- of that filter, and the SQL starts a condition: it is never empty. A lookup that fails, or that has
-- no definition, lets nothing be applied.
pub apply_scope_filter-Restricts :
    (lookup : Lookup) (ctx : Context) (sql : Text) (params : List Value)
    → apply_scope_filter lookup ctx ≡ ok (sql, params)
    → (raw : RawFilter) × (lookup ≡ defined raw)
      × (is_blank raw ≡ false)
      × ((rest : Text) × (sql ≡ codes "AND (" ++ rest))
      × (filter_to_sql raw ctx ≡ ok (sql, params))
unfolding apply_scope_filter
apply_scope_filter-Restricts failed ctx sql params h = absurd (cc h)
apply_scope_filter-Restricts missing ctx sql params h = absurd (cc h)
apply_scope_filter-Restricts (defined raw) ctx sql params h = elim (Bool-cases (is_blank raw)) [
  | inl e ↦ absurd (cc (rw e at h))
  | inr e ↦
      let (starting, same) =
        not_empty-Restricts (filter_to_sql raw ctx) sql params (filter_to_sql-Restricts raw ctx)
          (rw e at h) in
      (raw, refl, e, starting, same)
]
