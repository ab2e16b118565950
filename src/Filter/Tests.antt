-- ===== src/Filter/Tests.antt =====
-- The filter theorems at a stored filter and two access contexts.
use mimir_backend.Prelude.{
  Bool-cases, inl, inr, text_eq-eq, ◌≡◌, ◌++◌, refl, true, false, some, none, [], ◌∷◌, List, Text,
  codes, text_eq, if◌then◌else◌,
}
use mimir_backend.Prelude.Raises.{ok}
use mimir_backend.Filter.Expression.{
  Value, text, items, more, no_values, FilterExpression, RawCondition, RawFilter, Context,
  parse_condition, parse_filter_expression, name_of, ctx_variable, resolve_ctx_var,
  substitute_value, substitute_values, substitute_condition, substitute_ctx,
}
use mimir_backend.Filter.Sql.{
  column_of, placeholders, cond_to_sql, build_sql_filter, filter_to_sql, defined, is_blank,
  apply_scope_filter,
}
use mimir_backend.Filter.Substituted.{AgreeOnAllowed, substitute_ctx-agree}
use mimir_backend.Filter.Slots.{all_slots}
use mimir_backend.Filter.Placeholders.{marks, filter_to_sql-Balanced}
use mimir_backend.Filter.Scope.{build_sql_filter-shape, apply_scope_filter-Restricts}

abbrev same_organization : RawCondition
same_organization = record {
  field = some "organization_id";
  op = some "eq";
  value = some (text (codes "$ctx.organization_id"));
}

abbrev open_levels : RawCondition
open_levels = record {
  field = some "visibility";
  op = some "in";
  value = some (items (more (text (codes "public")) (more (text (codes "team")) no_values)));
}

abbrev stored : RawFilter
stored = record {
  and_ = some (same_organization ∷ []);
  or_ = some (open_levels ∷ []);
  other_keys = false;
}

abbrev of_acme : Context
of_acme key = if text_eq key (codes "organization_id") then some (text (codes "acme")) else none

abbrev of_acme_admin : Context
of_acme_admin key =
    if text_eq key (codes "is_admin") then some (text (codes "yes")) else of_acme key

abbrev stored_sql : Text
stored_sql = codes "AND (d.organization_id = %s AND (d.visibility IN (%s,%s)))"

abbrev stored_params : List Value
stored_params = text (codes "acme") ∷ text (codes "public") ∷ text (codes "team") ∷ []

translates : filter_to_sql stored of_acme ≡ ok (stored_sql, stored_params)
unfolding filter_to_sql parse_filter_expression parse_condition substitute_ctx substitute_condition
    substitute_value substitute_values resolve_ctx_var ctx_variable name_of build_sql_filter
    cond_to_sql column_of placeholders
translates = refl

filter_to_sql-Balanced_example : (marks stored_sql ≡ 3) × (all_slots stored_sql ≡ true)
filter_to_sql-Balanced_example =
    filter_to_sql-Balanced stored of_acme stored_sql stored_params translates

applies : apply_scope_filter (defined stored) of_acme ≡ ok (stored_sql, stored_params)
unfolding apply_scope_filter
applies = rw translates refl

apply_scope_filter-Restricts_example :
    (raw : RawFilter) × (defined stored ≡ defined raw)
    × (is_blank raw ≡ false)
    × ((rest : Text) × (stored_sql ≡ codes "AND (" ++ rest))
    × (filter_to_sql raw of_acme ≡ ok (stored_sql, stored_params))
apply_scope_filter-Restricts_example =
    apply_scope_filter-Restricts (defined stored) of_acme stored_sql stored_params applies

abbrev own_documents : Value → FilterExpression
own_documents organization = record {
  and_ = record { field = "organization_id"; op = "eq"; value = organization } ∷ [];
  or_ = [];
}

abbrev own_sql : Text
own_sql = codes "AND (d.organization_id = %s)"

builds : (v : Value) → build_sql_filter (own_documents v) ≡ ok (own_sql, v ∷ [])
unfolding build_sql_filter cond_to_sql column_of
builds v = refl

build_sql_filter-shape_example : own_sql ≡ own_sql
build_sql_filter-shape_example =
    build_sql_filter-shape (own_documents (text (codes "acme")))
      (own_documents (text (codes "') OR 1=1 --"))) (own_sql, text (codes "acme") ∷ [])
      (own_sql, text (codes "') OR 1=1 --") ∷ []) refl refl (builds (text (codes "acme")))
      (builds (text (codes "') OR 1=1 --")))

agree_on_acme : AgreeOnAllowed of_acme of_acme_admin
agree_on_acme key h = elim (Bool-cases (text_eq key (codes "is_admin"))) [
  | inl e ↦ absurd (cc (rw (text_eq-eq key (codes "is_admin") e) at h))
  | inr e ↦ rw e refl
]

substitute_ctx-agree_example :
    substitute_ctx (own_documents (text (codes "$ctx.organization_id"))) of_acme
    ≡ substitute_ctx (own_documents (text (codes "$ctx.organization_id"))) of_acme_admin
substitute_ctx-agree_example =
    substitute_ctx-agree of_acme of_acme_admin (own_documents (text (codes "$ctx.organization_id")))
      agree_on_acme
