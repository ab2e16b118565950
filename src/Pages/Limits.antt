-- ===== src/Pages/Limits.antt =====
-- What an accepted page request satisfies.
use mimir_backend.Prelude.{
  ℕ, ◌≤◌, String, ◌≡◌, refl, false, ◌&&◌, ◌||◌, [], ◌∷◌, ◌++◌, Option, arith, inl, inr, Bool-cases,
  if◌then◌else◌,
}
use mimir_backend.Prelude.Raises.{ok, ok-injective}
use mimir_backend.Pages.Parse.{
  Integer, pos, negsuc, Errors, Field, Mode, page_mode, cursor_mode, page_size_field, limit_field,
  ListQuerySpec, PaginationResult, is_given, or_integer, size_errors, page_errors, cursor_errors,
  unless_errors, parse_page_pagination, parse_cursor_pagination, parse_pagination,
}

-- A number from 1 to a bound.
abbrev pub Within : Integer → ℕ → Type 0
Within (pos n) bound = (1 ≤ n) × (n ≤ bound)
Within (negsuc n) bound = ⊥

abbrev pub AtLeastOne : Integer → Type 0
AtLeastOne (pos n) = 1 ≤ n
AtLeastOne (negsuc n) = ⊥

size_errors-Within :
    (f : Field) (n : Integer) (bound : ℕ) → size_errors f n bound ≡ [] → Within n bound
size_errors-Within f (pos n) bound h = (ground arith, ground arith)
size_errors-Within f (negsuc n) bound h = absurd (cc h)

page_errors-AtLeastOne : (n : Integer) → page_errors n ≡ [] → AtLeastOne n
page_errors-AtLeastOne (pos n) h = ground arith
page_errors-AtLeastOne (negsuc n) h = absurd (cc h)

no_errors :
    (es : Errors) (r r' : PaginationResult) → unless_errors es r ≡ ok r' → (es ≡ []) × (r ≡ r')
no_errors [] r r' h = (refl, ok-injective h)
no_errors (e ∷ es) r r' h = absurd (cc h)

both_empty : (xs ys : Errors) → xs ++ ys ≡ [] → (xs ≡ []) × (ys ≡ [])
both_empty [] ys h = (refl, h)
both_empty (x ∷ xs) ys h = absurd (cc h)

-- The upper bound of a size in each mode.
abbrev pub size_bound : Mode → ListQuerySpec → ℕ
size_bound page_mode spec = spec.max_page_size
size_bound cursor_mode spec = spec.max_limit

abbrev Fits : Mode → PaginationResult → ListQuerySpec → Type 0
Fits mode r spec = (r.mode ≡ mode) × AtLeastOne r.page × Within r.page_size (size_bound mode spec)

page-Fits :
    (page size : Option Integer) (spec : ListQuerySpec) (r : PaginationResult)
    → parse_page_pagination page size spec ≡ ok r
    → Fits page_mode r spec
unfolding parse_page_pagination
page-Fits page size spec r h =
    let (none_left, same) = no_errors _ _ r h in
    let (p, q) = both_empty (page_errors (or_integer page 1)) _ none_left in
    rw (← same) (
      refl,
      page_errors-AtLeastOne (or_integer page 1) p,
      size_errors-Within page_size_field (or_integer size spec.default_page_size) spec.max_page_size
          q,
    )

cursor-Fits :
    (cursor : Option String) (limit : Option Integer) (spec : ListQuerySpec) (r : PaginationResult)
    → parse_cursor_pagination cursor limit spec ≡ ok r
    → Fits cursor_mode r spec
unfolding parse_cursor_pagination
cursor-Fits cursor limit spec r h =
    let (none_left, same) = no_errors _ _ r h in
    let (p, q) = both_empty (cursor_errors cursor) _ none_left in
    rw (← same) (
      refl,
      omega arith,
      size_errors-Within limit_field (or_integer limit spec.default_page_size) spec.max_limit q,
    )

-- An accepted request does not mix the two kinds of parameters, which decide its mode. Its page is
-- at least 1, and its size is from 1 to the limit that the specification sets for that mode.
pub parse_pagination-Fits :
    (page size : Option Integer) (cursor : Option String) (limit : Option Integer)
    (spec : ListQuerySpec) (r : PaginationResult)
    → parse_pagination page size cursor limit spec ≡ ok r
    → (((is_given page || is_given size) && (is_given cursor || is_given limit)) ≡ false)
      × (r.mode ≡ (if is_given cursor || is_given limit then cursor_mode else page_mode))
      × AtLeastOne r.page
      × Within r.page_size (size_bound r.mode spec)
unfolding parse_pagination
parse_pagination-Fits page size cursor limit spec r h =
    elim (Bool-cases ((is_given page || is_given size) && (is_given cursor || is_given limit))) [
      | inl e ↦ absurd (cc (rw e at h))
      | inr e ↦ elim (Bool-cases (is_given cursor || is_given limit)) [
        | inl k ↦
            let (mode, least, within) = cursor-Fits cursor limit spec r (rw (e, k) at h) in
            (e, rw k mode, least, rw mode within)
        | inr k ↦
            let (mode, least, within) = page-Fits page size spec r (rw (e, k) at h) in
            (e, rw k mode, least, rw mode within)
      ]
    ]
