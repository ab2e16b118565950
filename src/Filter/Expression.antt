-- ===== src/Filter/Expression.antt =====
-- Filter conditions and how they are read and filled in: app/models/scope_profile.py and the
-- first half of app/services/filter_expression.py.
use mimir_backend.Prelude.{
  ℕ, String, Bool, true, false, ◌&&◌, ◌||◌, List, [], ◌∷◌, Option, none, some, leb, ◌==◌, any,
  str_eq, if◌then◌else◌, Text, codes, text_eq, truthy,
}
use mimir_backend.Prelude.Raises.{Result, ok, ◌>>=◌, require}

-- A JSON value, as far as the code tells values apart: texts and lists. All other values are
-- numbered.
mutual
  pub data Value : Type 0 where
    null : Value
    text : Text → Value
    items : Values → Value
    other : ℕ → Value

  pub data Values : Type 0 where
    no_values : Values
    more : Value → Values → Values

pub record FilterCondition : Type 0 where
  pub field : String
  pub op : String
  pub value : Value

pub record FilterExpression : Type 0 where
  pub and_ : List FilterCondition
  pub or_ : List FilterCondition

-- A condition as it is stored: each key may be missing.
pub record RawCondition : Type 0 where
  pub field : Option String
  pub op : Option String
  pub value : Option Value

-- The stored object: two keys that are read, and whether it has any other.
pub record RawFilter : Type 0 where
  pub and_ : Option (List RawCondition)
  pub or_ : Option (List RawCondition)
  pub other_keys : Bool

-- `raw.get(key, [])`
abbrev pub or_none : Option (List RawCondition) → List RawCondition
or_none none = []
or_none (some cs) = cs

-- The reasons for a ValueError.
pub data FilterError : Type 0 where
  missing_field unsupported_op unsupported_field : FilterError
  unknown_variable : Text → FilterError

abbrev pub allowed_ops : List String
allowed_ops = "eq" ∷ "neq" ∷ "in" ∷ "not_in" ∷ "contains" ∷ []

abbrev pub allowed_fields : List String
allowed_fields =
    "organization_id" ∷ "team_id" ∷ "visibility" ∷ "classification" ∷ "document_type" ∷ "is_public"
    ∷ "accessible_roles" ∷ "accessible_org_ids" ∷ []

abbrev pub is_among : String → List String → Bool
is_among s = any (λ (k : String). str_eq k s)

-- `FilterCondition.validate`, in front of what follows it
abbrev pub validate : FilterCondition → Result FilterError FilterCondition
validate c =
    require (is_among c.op allowed_ops) unsupported_op
      (require (is_among c.field allowed_fields) unsupported_field (ok c))

abbrev pub or_blank : Option String → String
or_blank none = ""
or_blank (some s) = s

abbrev pub or_null : Option Value → Value
or_null none = null
or_null (some v) = v

-- `_parse_condition` and the validation after it
unfoldable pub parse_condition : RawCondition → Result FilterError FilterCondition
parse_condition raw = require (truthy raw.field && truthy raw.op) missing_field (
    validate
      (record { field = or_blank raw.field; op = or_blank raw.op; value = or_null raw.value }))

-- a loop that stops at the first exception
abbrev pub collect {ℓ κ ε} :
    {A : Type ℓ} {B : Type κ} {E : Type ε} → (A → Result E B) → List A → Result E (List B)
collect f [] = ok []
collect f (x ∷ xs) = f x >>= λ y. collect f xs >>= λ ys. ok (y ∷ ys)

-- `parse_filter_expression`
unfoldable pub parse_filter_expression : RawFilter → Result FilterError FilterExpression
parse_filter_expression raw = do
  and_conditions ← collect parse_condition (or_none raw.and_)
  or_conditions ← collect parse_condition (or_none raw.or_)
  ok (record { and_ = and_conditions; or_ = or_conditions })

abbrev pub is_name_char : ℕ → Bool
is_name_char c = leb b'a' c && leb c b'z' || c == b'_'

abbrev is_nil : Text → Bool
is_nil [] = true
is_nil (c ∷ s) = false

abbrev pub cons_name : ℕ → Option Text → Option Text
cons_name c none = none
cons_name c (some s) = some (c ∷ s)

-- `([a-z_]*)$`: the end is the end of the text, or a line break there
unfoldable pub name_of : Text → Option Text
name_of [] = some []
name_of (c ∷ s) =
    if is_name_char c
    then cons_name c (name_of s)
    else if c == 10 && is_nil s
    then some []
    else none

abbrev pub after_prefix : Text → Text → Option Text
after_prefix [] s = some s
after_prefix (p ∷ ps) [] = none
after_prefix (p ∷ ps) (c ∷ s) = if p == c then after_prefix ps s else none

abbrev named : Option Text → Option Text
named none = none
named (some []) = none
named (some (c ∷ s)) = some (c ∷ s)

abbrev then_name : Option Text → Option Text
then_name none = none
then_name (some s) = named (name_of s)

-- `_CTX_VAR_PATTERN`: the name after `$ctx.`
unfoldable pub ctx_variable : Text → Option Text
ctx_variable s = then_name (after_prefix (codes "$ctx.") s)

abbrev pub allowed_ctx_keys : List Text
allowed_ctx_keys =
    codes "organization_id" ∷ codes "team_id" ∷ codes "user_id" ∷ codes "permissions" ∷ []

abbrev pub is_allowed_key : Text → Bool
is_allowed_key key = any (λ (k : Text). text_eq k key) allowed_ctx_keys

-- the access context: the value of a key, if it has one
abbrev pub Context : Type 0
Context = Text → Option Value

abbrev resolve_key : Text → Option Text → Context → Result FilterError Value
resolve_key s none ctx = ok (text s)
resolve_key s (some key) ctx =
    require (is_allowed_key key) (unknown_variable key) (ok (or_null (ctx key)))

-- `_resolve_ctx_var`
unfoldable pub resolve_ctx_var : Text → Context → Result FilterError Value
resolve_ctx_var s ctx = resolve_key s (ctx_variable s) ctx

abbrev pub substitute_element : Value → Context → Result FilterError Value
substitute_element (text s) ctx = resolve_ctx_var s ctx
substitute_element v ctx = ok v

unfoldable pub substitute_values : Values → Context → Result FilterError Values
substitute_values no_values ctx = ok no_values
substitute_values (more v vs) ctx =
    substitute_element v ctx >>= λ w. substitute_values vs ctx >>= λ ws. ok (more w ws)

unfoldable pub substitute_value : Value → Context → Result FilterError Value
substitute_value (text s) ctx = resolve_ctx_var s ctx
substitute_value (items vs) ctx = substitute_values vs ctx >>= λ ws. ok (items ws)
substitute_value v ctx = ok v

-- `_substitute_condition`
unfoldable pub substitute_condition : Context → FilterCondition → Result FilterError FilterCondition
substitute_condition ctx c = do
  value ← substitute_value c.value ctx
  ok (record { field = c.field; op = c.op; value = value })

-- `substitute_ctx`
unfoldable pub substitute_ctx : FilterExpression → Context → Result FilterError FilterExpression
substitute_ctx expr ctx = do
  and_conditions ← collect (substitute_condition ctx) expr.and_
  or_conditions ← collect (substitute_condition ctx) expr.or_
  ok (record { and_ = and_conditions; or_ = or_conditions })
