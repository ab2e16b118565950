-- ===== src/Cron/Tests.antt =====
-- Runs of the cron expressions of app/services/cron_util.py at concrete inputs.
use mimir_backend.Prelude.{
  ℕ, ◌+◌, ◌/◌, ◌%◌, ◌≤◌, true, Option, [], ◌∷◌, ◌≡◌, refl, ◌↔◌, Text, codes,
}
use mimir_backend.Prelude.Raises.{ok}
use mimir_backend.Prelude.Splitting.{split_on, strip, words}
use mimir_backend.Cron.Field.{member, parse_part, update, matches_pattern, parse_field, parse_parts}
use mimir_backend.Cron.Schedule.{
  Moment, Schedule, max_iterations, parse_fields, validate, is_due, next_run,
}
use mimir_backend.Cron.Values.{Denotes, parse_field-Denotes}
use mimir_backend.Cron.Next.{IsFirst, next_run-IsFirst}

abbrev work_hours : Text
work_hours = codes "9-17/4,0"

parse_field-Denotes_example :
    ((member 13 (9 ∷ 13 ∷ 17 ∷ 0 ∷ []) ≡ true) ↔ Denotes 0 23 13 (split_on b',' work_hours))
    × (member 13 (9 ∷ 13 ∷ 17 ∷ 0 ∷ []) ≡ true → (0 ≤ 13) × (13 ≤ 23))
unfolding parse_field parse_parts parse_part update matches_pattern
parse_field-Denotes_example = parse_field-Denotes work_hours 0 23 13 refl

-- Days of 24 hours in one month, from a Monday on.
abbrev plain_calendar : ℕ → Moment
plain_calendar t = record {
  month = 1;
  day = (t / 1440) % 31 + 1;
  hour = (t / 60) % 24;
  minute = t % 60;
  weekday = (t / 1440) % 7;
}

abbrev every_sunday : Text
every_sunday = codes " 30 2 * * 0"

next_run-IsFirst_example :
    (s : Schedule) × (answer : Option ℕ) × (parse_fields (words (strip every_sunday)) ≡ ok s)
    × (next_run plain_calendar every_sunday 5 ≡ ok answer)
    × IsFirst (λ t. is_due s (plain_calendar t)) (5 + 1) max_iterations answer
unfolding validate parse_fields parse_field parse_parts parse_part update matches_pattern
next_run-IsFirst_example = next_run-IsFirst plain_calendar every_sunday (codes "30 2 * * 0") 5 refl
