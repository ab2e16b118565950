-- ===== src/Cron/Field.antt =====
-- One field of a cron expression: `_parse_field` of app/services/cron_util.py. A set of integers is
-- the list of its members, each once.
use mimir_backend.Prelude.{
  ℕ, zero, suc, ◌+◌, ◌-◌, Bool, true, false, not, ◌&&◌, ◌||◌, List, [], ◌∷◌, ◌++◌, Option, none,
  some, ltb, leb, ◌==◌, if◌then◌else◌, any, Text, text_eq,
}
use mimir_backend.Prelude.Raises.{Result, ok, ◌>>=◌, require}
use mimir_backend.Prelude.Splitting.{is_empty, split_on, split_first, is_digits, number}

-- The reasons for a ValueError.
pub data CronError : Type 0 where
  bad_character bad_step bad_range bad_number out_of_range too_long wrong_fields : CronError

abbrev is_field_char : ℕ → Bool
is_field_char c = leb b'0' c && leb c b'9' || c == b'*' || c == b',' || c == b'/' || c == b'-'

-- `[0-9*,/\-]*$`: the end is the end of the text, or a line break there
abbrev to_end : Text → Bool
to_end [] = true
to_end (c ∷ s) = is_field_char c && to_end s || c == 10 && is_empty s

-- `_FIELD_PATTERN`
unfoldable pub matches_pattern : Text → Bool
matches_pattern [] = false
matches_pattern (c ∷ s) = is_field_char c && to_end s

abbrev pub member : ℕ → List ℕ → Bool
member v = any (λ (w : ℕ). w == v)

abbrev pub add : ℕ → List ℕ → List ℕ
add v vs = if member v vs then vs else vs ++ v ∷ []

-- `values.update(range(start, end + 1, step))`; the first argument bounds the number of rounds
unfoldable pub update : ℕ → ℕ → ℕ → ℕ → List ℕ → List ℕ
update zero start end step vs = vs
update (suc rounds) start end step vs =
    let rest = update rounds (start + step) end step (add start vs) in
    if leb start end then rest else vs

-- A part of a field: first value, last value, step.
pub record Part : Type 0 where
  pub start : ℕ
  pub end : ℕ
  pub step : ℕ

abbrev pub step_of : Text → Result CronError ℕ
step_of step_str =
    require (is_digits step_str && leb 1 (number step_str)) bad_step (ok (number step_str))

abbrev pub base_and_step : Text → Option (Text × Text) → Result CronError (Text × ℕ)
base_and_step part none = ok (part, 1)
base_and_step part (some (base, step_str)) = step_of step_str >>= λ step. ok (base, step)

abbrev single_or_range : Text → Option (Text × Text) → Result CronError (ℕ × ℕ)
single_or_range base none = require (is_digits base) bad_number (ok (number base, number base))
single_or_range base (some (s, e)) =
    require (is_digits s && is_digits e) bad_range (ok (number s, number e))

abbrev pub bounds_of : ℕ → ℕ → Text → Result CronError (ℕ × ℕ)
bounds_of lo hi base =
    if text_eq base (b'*' ∷ []) || is_empty base
    then ok (lo, hi)
    else single_or_range base (split_first b'-' base)

-- the body of the loop, up to the check of the range
unfoldable pub parse_part : ℕ → ℕ → Text → Result CronError Part
parse_part lo hi part = do
  parsed ← base_and_step part (split_first b'/' part)
  limits ← bounds_of lo hi parsed.0
  require (not (ltb limits.0 lo || ltb hi limits.1 || ltb limits.1 limits.0)) out_of_range
      (ok (record { start = limits.0; end = limits.1; step = parsed.1 }))

unfoldable pub parse_parts : ℕ → ℕ → List Text → List ℕ → Result CronError (List ℕ)
parse_parts lo hi [] vs = ok vs
parse_parts lo hi (part ∷ parts) vs = parse_part lo hi part >>= λ (p : Part).
    parse_parts lo hi parts (update (p.end + 1 - p.start) p.start p.end p.step vs)

-- `_parse_field`
unfoldable pub parse_field : Text → ℕ → ℕ → Result CronError (List ℕ)
parse_field token lo hi =
    require (matches_pattern token) bad_character (parse_parts lo hi (split_on b',' token) [])
