-- ===== src/Pages/Parse.antt =====
-- `parse_pagination` of app/api/query/pagination.py. Numbers of a request are integers.
use mimir_backend.Prelude.{
  ℕ, String, Bool, true, false, ◌&&◌, ◌||◌, List, [], ◌∷◌, ◌++◌, Option, none, some, ltb, all,
  codes, is_space, if◌then◌else◌,
}
use mimir_backend.Prelude.Raises.{Result, ok, err}

-- An integer: a natural number, or one below zero.
pub data Integer : Type 0 where
  pos : ℕ → Integer
  negsuc : ℕ → Integer

pub data Mode : Type 0 where
  page_mode cursor_mode : Mode

pub data Field : Type 0 where
  page_field page_size_field limit_field cursor_field pagination_field : Field

pub data Reason : Type 0 where
  below_one empty_cursor mutually_exclusive : Reason
  above : ℕ → Reason

abbrev pub Errors : Type 0
Errors = List (Field × Reason)

-- What a list query needs of its specification.
pub record ListQuerySpec : Type 0 where
  pub default_page_size : ℕ
  pub max_page_size : ℕ
  pub max_limit : ℕ

pub record PaginationResult : Type 0 where
  pub mode : Mode
  pub page : Integer
  pub page_size : Integer
  pub cursor : Option String
  pub limit : Option Integer

-- `n < 1`
abbrev pub is_below_one : Integer → Bool
is_below_one (pos n) = ltb n 1
is_below_one (negsuc n) = true

-- `n > bound`
abbrev pub is_above : Integer → ℕ → Bool
is_above (pos n) bound = ltb bound n
is_above (negsuc n) bound = false

abbrev pub is_given {ℓ} : {A : Type ℓ} → Option A → Bool
is_given none = false
is_given (some a) = true

abbrev pub or_integer : Option Integer → ℕ → Integer
or_integer none d = pos d
or_integer (some n) d = n

-- the checks of a size against 1 and an upper bound
abbrev pub size_errors : Field → Integer → ℕ → Errors
size_errors field n bound =
    if is_below_one n
    then (field, below_one) ∷ []
    else if is_above n bound
    then (field, above bound) ∷ []
    else []

abbrev pub page_errors : Integer → Errors
page_errors n = if is_below_one n then (page_field, below_one) ∷ [] else []

abbrev pub unless_errors : Errors → PaginationResult → Result Errors PaginationResult
unless_errors [] r = ok r
unless_errors (e ∷ es) r = err (e ∷ es)

-- `_parse_page_pagination`
unfoldable pub parse_page_pagination :
    Option Integer → Option Integer → ListQuerySpec → Result Errors PaginationResult
parse_page_pagination page page_size spec =
    let resolved_page = or_integer page 1 in
    let resolved_page_size = or_integer page_size spec.default_page_size in
    unless_errors
      (page_errors resolved_page
        ++ size_errors page_size_field resolved_page_size spec.max_page_size)
      (record {
        mode = page_mode;
        page = resolved_page;
        page_size = resolved_page_size;
        cursor = none;
        limit = none;
      })

-- `_validate_cursor_format`: not empty, and not white space alone
abbrev pub cursor_errors : Option String → Errors
cursor_errors none = []
cursor_errors (some c) = if all is_space (codes c) then (cursor_field, empty_cursor) ∷ [] else []

-- `_parse_cursor_pagination`
unfoldable pub parse_cursor_pagination :
    Option String → Option Integer → ListQuerySpec → Result Errors PaginationResult
parse_cursor_pagination cursor limit spec =
    let resolved_limit = or_integer limit spec.default_page_size in
    unless_errors (cursor_errors cursor ++ size_errors limit_field resolved_limit spec.max_limit)
      (record {
        mode = cursor_mode;
        page = pos 1;
        page_size = resolved_limit;
        cursor = cursor;
        limit = some resolved_limit;
      })

-- `parse_pagination`
unfoldable pub parse_pagination :
    Option Integer
    → Option Integer
    → Option String
    → Option Integer
    → ListQuerySpec
    → Result Errors PaginationResult
parse_pagination page page_size cursor limit spec =
    let has_page = is_given page || is_given page_size in
    let has_cursor = is_given cursor || is_given limit in
    if has_page && has_cursor
    then err ((pagination_field, mutually_exclusive) ∷ [])
    else if has_cursor
    then parse_cursor_pagination cursor limit spec
    else parse_page_pagination page page_size spec
