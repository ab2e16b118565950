-- ===== src/Cron/Schedule.antt =====
-- `validate` and `next_run` of app/services/cron_util.py. A time is a number of minutes; what the
-- calendar says of it is an argument, since it is the library's.
use mimir_backend.Prelude.{
  ℕ, zero, suc, ◌+◌, ◌%◌, Bool, true, not, ◌&&◌, ◌||◌, List, [], ◌∷◌, Option, none, some, ltb, ◌==◌,
  if◌then◌else◌, length, Text,
}
use mimir_backend.Prelude.Raises.{Result, ok, err, ◌>>=◌, require}
use mimir_backend.Prelude.Splitting.{strip, words}
use mimir_backend.Cron.Field.{CronError, too_long, wrong_fields, member, parse_field}

-- The fields of a `datetime`; its `weekday()` is 0 on a Monday.
pub record Moment : Type 0 where
  pub month : ℕ
  pub day : ℕ
  pub hour : ℕ
  pub minute : ℕ
  pub weekday : ℕ

pub record Schedule : Type 0 where
  pub mins : List ℕ
  pub hours : List ℕ
  pub doms : List ℕ
  pub mons : List ℕ
  pub dows : List ℕ

abbrev pub max_length : ℕ
max_length = 120

-- `_MAX_ITERATIONS`: the minutes of 4 * 365 days, one day short of four calendar years
abbrev pub max_iterations : ℕ
max_iterations = 2102400

-- the five fields with their ranges, in their order
unfoldable pub parse_fields : List Text → Result CronError Schedule
parse_fields (m ∷ h ∷ dom ∷ mon ∷ dow ∷ []) = do
  mins ← parse_field m 0 59
  hours ← parse_field h 0 23
  doms ← parse_field dom 1 31
  mons ← parse_field mon 1 12
  dows ← parse_field dow 0 6
  ok (record { mins = mins; hours = hours; doms = doms; mons = mons; dows = dows })
parse_fields _ = err wrong_fields

-- `validate`, which returns the stripped text
unfoldable pub validate : Text → Result CronError Text
validate expr =
    require (not (ltb max_length (length (strip expr)))) too_long
      (parse_fields (words (strip expr)) >>= λ fields. ok (strip expr))

-- `_weekday_sun`: 0 on a Sunday
abbrev pub weekday_sun : Moment → ℕ
weekday_sun t = (t.weekday + 1) % 7

-- the test of the day: either field, if both are restricted
abbrev pub date_ok : Schedule → Moment → Bool
date_ok s t =
    let dom_restricted = not (length s.doms == 31) in
    let dow_restricted = not (length s.dows == 7) in
    if dom_restricted && dow_restricted
    then member t.day s.doms || member (weekday_sun t) s.dows
    else if dom_restricted
    then member t.day s.doms
    else if dow_restricted
    then member (weekday_sun t) s.dows
    else true

unfoldable pub is_due : Schedule → Moment → Bool
is_due s t = member t.month s.mons && date_ok s t && member t.hour s.hours && member t.minute s.mins

-- the loop: `none` when the rounds are used up
unfoldable pub search : (ℕ → Bool) → ℕ → ℕ → Option ℕ
search due zero t = none
search due (suc rounds) t = let later = search due rounds (t + 1) in if due t then some t else later

-- `next_run`, for a given time
unfoldable pub next_run : (ℕ → Moment) → Text → ℕ → Result CronError (Option ℕ)
next_run calendar expr now = do
  valid ← validate expr
  schedule ← parse_fields (words (strip expr))
  ok (search (λ t. is_due schedule (calendar t)) max_iterations (now + 1))
