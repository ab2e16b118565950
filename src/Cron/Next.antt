-- ===== src/Cron/Next.antt =====
-- What `next_run` of app/services/cron_util.py answers.
use mimir_backend.Prelude.{
  ℕ, zero, suc, ◌+◌, ◌≤◌, ◌<◌, Bool, true, false, Option, none, some, ◌≡◌, refl, inl, inr, arith,
  Bool-cases, Text, not, ltb, length,
}
use mimir_backend.Prelude.Raises.{ok, ◌>>=◌, required, returned}
use mimir_backend.Prelude.Splitting.{strip, words}
use mimir_backend.Cron.Field.{too_long}
use mimir_backend.Cron.Schedule.{
  Moment, Schedule, max_length, max_iterations, parse_fields, validate, is_due, search, next_run,
}

-- The answer of a search among the `rounds` minutes from `t` on: the first that is due, or `none`
-- where none of them is.
pub data IsFirst (due : ℕ → Bool) (t rounds : ℕ) : Option ℕ → Type 0 where
  nothing : ((v : ℕ) → t ≤ v → v < t + rounds → due v ≡ false) → IsFirst due t rounds none
  minute :
      (u : ℕ)
      → t ≤ u
      → u < t + rounds
      → due u ≡ true
      → ((v : ℕ) → t ≤ v → v < u → due v ≡ false)
      → IsFirst due t rounds (some u)

-- A minute that is not due before the minutes of a search.
one_more :
    (due : ℕ → Bool) (t n : ℕ)
    → due t ≡ false
    → {r : Option ℕ} → IsFirst due (t + 1) n r
    → IsFirst due t (suc n) r
one_more due t n h (nothing all) =
    nothing (λ v le lt. earlier due t h v le (λ after. all v after (omega arith)))
  where
    earlier :
        (f : ℕ → Bool) (s : ℕ)
        → f s ≡ false
        → (v : ℕ) → s ≤ v
        → (s + 1 ≤ v → f v ≡ false)
        → f v ≡ false
    earlier f s e v le rest = grind arith
one_more due t n h (minute u le lt now all) =
    minute u (omega arith) (omega arith) now (λ v le lt. grind (arith, all v))

search-IsFirst : (due : ℕ → Bool) (rounds t : ℕ) → IsFirst due t rounds (search due rounds t)
unfolding search
search-IsFirst due zero t = nothing (λ v le lt. absurd (omega arith))
search-IsFirst due (suc n) t = elim (Bool-cases (due t)) [
  | inl h ↦ rw h (minute t (omega arith) (omega arith) h (λ v le lt. absurd (omega arith)))
  | inr h ↦ rw h (one_more due t n h (search-IsFirst due n (t + 1)))
]

-- Whenever `validate` accepts an expression, `next_run` returns, and with the fields' schedule its
-- answer is the first minute after the given time that is due; it answers `None` exactly where none
-- of the next 2102400 minutes (1460 days, one day short of four calendar years) is due. Every minute before the answer is not due.
pub next_run-IsFirst :
    (calendar : ℕ → Moment) (expr valid : Text) (now : ℕ)
    → validate expr ≡ ok valid
    → (s : Schedule) × (answer : Option ℕ) × (parse_fields (words (strip expr)) ≡ ok s)
      × (next_run calendar expr now ≡ ok answer)
      × IsFirst (λ t. is_due s (calendar t)) (now + 1) max_iterations answer
unfolding validate next_run
next_run-IsFirst calendar expr valid now h =
    let (fits, fields) =
      required (not (ltb max_length (length (strip expr)))) too_long
        (parse_fields (words (strip expr)) >>= λ fields. ok (strip expr)) h in
    let (s, parsed, _) =
      returned (parse_fields (words (strip expr))) (λ fields. ok (strip expr)) fields in
    (
      s,
      search (λ t. is_due s (calendar t)) max_iterations (now + 1),
      parsed,
      rw (fits, parsed) refl,
      search-IsFirst (λ t. is_due s (calendar t)) max_iterations (now + 1),
    )
