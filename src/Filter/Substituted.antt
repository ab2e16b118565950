-- ===== src/Filter/Substituted.antt =====
-- What filling in the variables of a filter reads, and what it keeps.
use mimir_backend.Prelude.{
  ◌≡◌, refl, sym, Bool, true, ◌&&◌, List, [], ◌∷◌, arith, inl, inr, Bool-cases, Option-cases, all,
  Text, truthy,
}
use mimir_backend.Prelude.Raises.{Result, ok, required, returned, ok-injective}
use mimir_backend.Filter.Expression.{
  Value, Values, null, text, items, other, no_values, more, FilterCondition, FilterExpression,
  RawCondition, missing_field, unsupported_op, unsupported_field, allowed_ops, allowed_fields,
  is_among, or_blank, parse_condition, collect, Context, is_allowed_key, ctx_variable,
  resolve_ctx_var, substitute_element, substitute_values, substitute_value, substitute_condition,
  substitute_ctx,
}

-- Two contexts with the same values at the keys that a filter may name.
abbrev pub AgreeOnAllowed : Context → Context → Type 0
AgreeOnAllowed ctx ctx' = (key : Text) → is_allowed_key key ≡ true → ctx key ≡ ctx' key

module _ (ctx ctx' : Context) (agree : AgreeOnAllowed ctx ctx') where
  resolve-agree : (s : Text) → resolve_ctx_var s ctx ≡ resolve_ctx_var s ctx'
  unfolding resolve_ctx_var
  resolve-agree s = elim (Option-cases (ctx_variable s)) [
    | inl e ↦ rw e refl
    | inr (key, e) ↦ elim (Bool-cases (is_allowed_key key)) [
      | inl k ↦ rw (e, agree key k) refl
      | inr k ↦ rw (e, k) refl
    ]
  ]

  element-agree : (v : Value) → substitute_element v ctx ≡ substitute_element v ctx'
  element-agree null = refl
  element-agree (text s) = resolve-agree s
  element-agree (items vs) = refl
  element-agree (other n) = refl

  values-agree : (vs : Values) → substitute_values vs ctx ≡ substitute_values vs ctx'
  unfolding substitute_values
  values-agree no_values = refl
  values-agree (more v vs) = rw (element-agree v, values-agree vs) refl

  value-agree : (v : Value) → substitute_value v ctx ≡ substitute_value v ctx'
  unfolding substitute_value
  value-agree null = refl
  value-agree (text s) = resolve-agree s
  value-agree (items vs) = rw (values-agree vs) refl
  value-agree (other n) = refl

  condition-agree : (c : FilterCondition) → substitute_condition ctx c ≡ substitute_condition ctx' c
  unfolding substitute_condition
  condition-agree c = rw (value-agree c.value) refl

  conditions-agree :
      (cs : List FilterCondition)
      → collect (substitute_condition ctx) cs ≡ collect (substitute_condition ctx') cs
  conditions-agree [] = refl
  conditions-agree (c ∷ cs) = rw (condition-agree c, conditions-agree cs) refl

-- Filling in a filter reads nothing of the access context but its four allowed keys: two contexts
-- with the same values there give the same filter, or the same error.
pub substitute_ctx-agree :
    (ctx ctx' : Context) (expr : FilterExpression)
    → AgreeOnAllowed ctx ctx'
    → substitute_ctx expr ctx ≡ substitute_ctx expr ctx'
unfolding substitute_ctx
substitute_ctx-agree ctx ctx' expr agree =
    rw (conditions-agree ctx ctx' agree expr.and_, conditions-agree ctx ctx' agree expr.or_) refl

-- What a collected list consists of.
pub collect-cons {ℓ κ ε} :
    {A : Type ℓ} {B : Type κ} {E : Type ε} (f : A → Result E B) (x : A) (xs : List A) {zs : List B}
    → collect f (x ∷ xs) ≡ ok zs
    → (y : B) × (ys : List B) × (f x ≡ ok y) × (collect f xs ≡ ok ys) × (zs ≡ y ∷ ys)
collect-cons f x xs h =
    let (y, first, others) = returned (f x) _ h in
    let (ys, rest, last) = returned (collect f xs) _ others in
    (y, ys, first, rest, sym (ok-injective last))

pub collect-all {ℓ κ ε} :
    {A : Type ℓ} {B : Type κ} {E : Type ε} (f : A → Result E B) (p : A → Bool) (q : B → Bool)
    → ((x : A) (y : B) → f x ≡ ok y → p x ≡ true → q y ≡ true)
    → (xs : List A) {ys : List B} → collect f xs ≡ ok ys
    → all p xs ≡ true
    → all q ys ≡ true
collect-all f p q step [] h a = ground arith
collect-all f p q step (x ∷ xs) h a =
    let (y, ys, e, rest, split) = collect-cons f x xs h in
    rw (split, step x y e (ground arith)) (collect-all f p q step xs rest (ground arith))

abbrev pub is_valid : FilterCondition → Bool
is_valid c = is_among c.op allowed_ops && is_among c.field allowed_fields

pub parse_condition-is_valid :
    (raw : RawCondition) (c : FilterCondition)
    → parse_condition raw ≡ ok c
    → true ≡ true
    → is_valid c ≡ true
unfolding parse_condition
parse_condition-is_valid raw c h t =
    let (given, checked) = required (truthy raw.field && truthy raw.op) missing_field _ h in
    let (op, named) = required (is_among (or_blank raw.op) allowed_ops) unsupported_op _ checked in
    let (field, last) =
      required (is_among (or_blank raw.field) allowed_fields) unsupported_field _ named in
    rw (← ok-injective last, op) field

pub substitute_condition-is_valid :
    (ctx : Context) (c d : FilterCondition)
    → substitute_condition ctx c ≡ ok d
    → is_valid c ≡ true
    → is_valid d ≡ true
unfolding substitute_condition
substitute_condition-is_valid ctx c d h v =
    let (w, read, last) = returned (substitute_value c.value ctx) _ h in rw (← ok-injective last) v
