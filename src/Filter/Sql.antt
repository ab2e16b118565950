-- ===== src/Filter/Sql.antt =====
-- Filter expressions as SQL: the second half of app/services/filter_expression.py, and
-- `apply_scope_filter` of app/mcp/scope_filter.py. SQL is the list of its code points.
use mimir_backend.Prelude.{
  ℕ, zero, suc, String, Bool, true, false, not, ◌&&◌, List, [], ◌∷◌, ◌++◌, Option, none, some,
  str_eq, if◌then◌else◌, Text, codes, length,
}
use mimir_backend.Prelude.Raises.{Result, ok, err, ◌>>=◌}
use mimir_backend.Filter.Expression.{
  Value, Values, items, no_values, more, FilterCondition, FilterExpression, RawFilter, FilterError,
  unsupported_op, collect, Context, parse_filter_expression, substitute_ctx,
}

-- `_FIELD_COLUMN_MAP.get(field, field)`
unfoldable pub column_of : String → String
column_of field =
    if str_eq field "organization_id"
    then "d.organization_id"
    else if str_eq field "team_id"
    then "d.team_id"
    else if str_eq field "visibility"
    then "d.visibility"
    else if str_eq field "classification"
    then "d.classification"
    else if str_eq field "document_type"
    then "d.document_type"
    else if str_eq field "is_public"
    then "dc.is_public"
    else if str_eq field "accessible_roles"
    then "dc.accessible_roles"
    else if str_eq field "accessible_org_ids"
    then "dc.accessible_org_ids"
    else field

abbrev pub Fragment : Type 0
Fragment = Text × List Value

abbrev pub listed : Values → List Value
listed no_values = []
listed (more v vs) = v ∷ listed vs

-- `list(value) if isinstance(value, (list, tuple)) else [value]`
abbrev pub values_of : Value → List Value
values_of (items vs) = listed vs
values_of v = v ∷ []

-- `separator.join(texts)`
abbrev pub join_with : Text → List Text → Text
join_with separator [] = []
join_with separator (t ∷ []) = t
join_with separator (t ∷ u ∷ ts) = t ++ (separator ++ join_with separator (u ∷ ts))

abbrev pub repeated : ℕ → Text → List Text
repeated zero t = []
repeated (suc n) t = t ∷ repeated n t

unfoldable pub placeholders : ℕ → Text
placeholders n = join_with (codes ",") (repeated n (codes "%s"))

-- `_cond_to_sql`
unfoldable pub cond_to_sql : FilterCondition → Result FilterError Fragment
cond_to_sql c =
    let col = codes (column_of c.field) in
    let vals = values_of c.value in
    if str_eq c.op "eq"
    then ok (col ++ codes " = %s", c.value ∷ [])
    else if str_eq c.op "neq"
    then ok (col ++ codes " != %s", c.value ∷ [])
    else if str_eq c.op "in"
    then ok (col ++ (codes " IN (" ++ (placeholders (length vals) ++ codes ")")), vals)
    else if str_eq c.op "not_in"
    then ok (col ++ (codes " NOT IN (" ++ (placeholders (length vals) ++ codes ")")), vals)
    else if str_eq c.op "contains"
    then ok (codes "%s = ANY(" ++ (col ++ codes ")"), c.value ∷ [])
    else err unsupported_op

abbrev pub clauses_of : List Fragment → List Text
clauses_of [] = []
clauses_of (f ∷ fs) = f.0 ∷ clauses_of fs

abbrev pub params_of : List Fragment → List Value
params_of [] = []
params_of (f ∷ fs) = f.1 ++ params_of fs

abbrev pub or_clause : List Text → List Text
or_clause [] = []
or_clause (t ∷ ts) = (codes "(" ++ (join_with (codes " OR ") (t ∷ ts) ++ codes ")")) ∷ []

abbrev pub and_clause : List Text → Text
and_clause [] = []
and_clause (t ∷ ts) = codes "AND (" ++ (join_with (codes " AND ") (t ∷ ts) ++ codes ")")

-- `build_sql_filter`; an empty expression gives an empty text
unfoldable pub build_sql_filter : FilterExpression → Result FilterError Fragment
build_sql_filter expr = do
  and_fragments ← collect cond_to_sql expr.and_
  or_fragments ← collect cond_to_sql expr.or_
  ok (
    and_clause (clauses_of and_fragments ++ or_clause (clauses_of or_fragments)),
    params_of and_fragments ++ params_of or_fragments,
  )

-- The reasons for which the scope filter is refused.
pub data ScopeError : Type 0 where
  lookup_failed no_definition empty_filter empty_sql : ScopeError
  invalid : FilterError → ScopeError

-- What the repository answers: it fails, has no definition, or has one with its filter.
pub data Lookup : Type 0 where
  failed missing : Lookup
  defined : RawFilter → Lookup

abbrev is_missing {ℓ} : {A : Type ℓ} → Option A → Bool
is_missing none = true
is_missing (some x) = false

-- `not acl_filter`: the object has no key
abbrev pub is_blank : RawFilter → Bool
is_blank raw = is_missing raw.and_ && is_missing raw.or_ && not raw.other_keys

abbrev pub not_empty : Result FilterError Fragment → Result ScopeError Fragment
not_empty (err e) = err (invalid e)
not_empty (ok ([], params)) = err empty_sql
not_empty (ok (c ∷ sql, params)) = ok (c ∷ sql, params)

-- parse, fill in, translate
unfoldable pub filter_to_sql : RawFilter → Context → Result FilterError Fragment
filter_to_sql raw ctx = do
  parsed ← parse_filter_expression raw
  expr ← substitute_ctx parsed ctx
  build_sql_filter expr

-- `apply_scope_filter`
unfoldable pub apply_scope_filter : Lookup → Context → Result ScopeError Fragment
apply_scope_filter failed ctx = err lookup_failed
apply_scope_filter missing ctx = err no_definition
apply_scope_filter (defined raw) ctx =
    if is_blank raw then err empty_filter else not_empty (filter_to_sql raw ctx)
