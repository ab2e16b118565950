-- ===== src/Cron/Values.antt =====
-- The set of values of a field of a cron expression, against its reading as arithmetic
-- progressions: app/services/cron_util.py.
use mathlib.Core.Bool.{and-eq-true_iff}
use mimir_backend.Prelude.{
  ℕ, zero, suc, ◌+◌, ◌-◌, ◌*◌, ◌≤◌, ◌<◌, Bool, true, false, List, [], ◌∷◌, ◌++◌, ◌≡◌, refl, ◌↔◌,
  ◌⊎◌, inl, inr, arith, Bool-cases, Text, leb, ltb, not, ◌&&◌, sym, ◌∙◌, ◌==◌, ==_iff, ◌||◌, Option,
  none, some,
}
use mimir_backend.Prelude.Raises.{Result, ok, ◌>>=◌, require, required, returned, ok-injective}
use mimir_backend.Prelude.Splitting.{split_on, split_first, is_digits, number}
use mimir_backend.Cron.Field.{
  CronError, bad_character, bad_step, out_of_range, step_of, member, add, update, Part,
  base_and_step, bounds_of, matches_pattern, parse_part, parse_parts, parse_field,
}

-- The values of `range(start, end + 1, step)`.
abbrev pub InRange : ℕ → ℕ → ℕ → ℕ → Type 0
InRange start end step v = (k : ℕ) × (v ≡ start + k * step) × v ≤ end

-- Some part of the list is a range that has the value.
pub data Denotes (lo hi v : ℕ) : List Text → Type 0 where
  here :
      {part : Text} {parts : List Text} (p : Part)
      → parse_part lo hi part ≡ ok p
      → InRange p.start p.end p.step v
      → Denotes lo hi v (part ∷ parts)
  there : {part : Text} {parts : List Text} → Denotes lo hi v parts → Denotes lo hi v (part ∷ parts)

-- The rounds' bound is enough for the whole range.
range-start :
    (end step : ℕ) {start v : ℕ}
    → InRange start end step v
    → (start ≡ v) ⊎ InRange (start + step) end step v
range-start end step (zero, e, le) = inl (omega (arith, e))
range-start end step (suc k, e, le) = inr (k, omega (arith, e), le)

any-append : (v : ℕ) (vs ws : List ℕ) → member v (vs ++ ws) ≡ member v vs || member v ws
any-append v [] ws = refl
any-append v (x ∷ vs) ws = ground (arith, any-append v vs ws)

-- An added value is a member, as are those that were there.
member-add : (w v : ℕ) (vs : List ℕ) → member v (add w vs) ≡ (w == v) || member v vs
member-add w v vs = ground (arith, any-append v vs (w ∷ []), ==_iff w v)

-- A value of the range, told from the set before its start is added.
range_cons :
    (start end step v : ℕ) (vs : List ℕ)
    → start ≤ end
    → (member v (add start vs) ≡ true) ⊎ InRange (start + step) end step v
    → (member v vs ≡ true) ⊎ InRange start end step v
range_cons start end step v vs le (inr (k, e, lt)) = inr (suc k, omega (arith, e), lt)
range_cons start end step v vs le (inl m) = elim (Bool-cases (start == v)) [
  | inl same ↦
      inr (0, omega (arith, (==_iff start v).0 same), omega (arith, (==_iff start v).0 same))
  | inr other ↦ inl (ground (arith, member-add start v vs))
]

-- A value of the updated set was there, or is one of the range.
update_inv :
    (rounds start end step v : ℕ) (vs : List ℕ)
    → member v (update rounds start end step vs) ≡ true
    → (member v vs ≡ true) ⊎ InRange start end step v
unfolding update
update_inv zero start end step v vs h = inl h
update_inv (suc n) start end step v vs h = elim (Bool-cases (leb start end)) [
  | inl le ↦
      range_cons start end step v vs (ground arith)
        (update_inv n (start + step) end step v (add start vs) (ground arith))
  | inr gt ↦ inl (ground arith)
]

member-update :
    (rounds start end step v : ℕ) (vs : List ℕ)
    → member v vs ≡ true
    → member v (update rounds start end step vs) ≡ true
unfolding update
member-update zero start end step v vs h = h
member-update (suc n) start end step v vs h =
    ground (arith, member-update n (start + step) end step v (add start vs), member-add start v vs)

start_le : (start step end v k : ℕ) → v ≡ start + k * step → v ≤ end → start ≤ end
start_le start step end v k e le = omega (arith, e)

-- With a round for each number from the start to the end, the whole range is added.
update-range :
    (rounds start end step v : ℕ) (vs : List ℕ)
    → 1 ≤ step
    → end < start + rounds
    → InRange start end step v
    → member v (update rounds start end step vs) ≡ true
unfolding update
update-range zero start end step v vs pos lt (k, e, le) = absurd (omega arith)
update-range (suc n) start end step v vs pos lt (k, e, le) =
    elim (range-start end step (k, e, le)) [
      | inl same ↦ ground (
        arith,
        member-update n (start + step) end step v (add start vs),
        member-add start v vs,
        ==_iff start v,
      )
      | inr later ↦ ground (
        arith,
        update-range n (start + step) end step v (add start vs) pos (omega arith) later,
        start_le start step end v k e le,
      )
    ]

-- What the body of the loop makes certain of.
record IsPart (lo hi : ℕ) (p : Part) : Type 0 where
  above : lo ≤ p.start
  below : p.end ≤ hi
  pos : 1 ≤ p.step

base_and_step-pos :
    (part : Text) (halves : Option (Text × Text)) {parsed : Text × ℕ}
    → base_and_step part halves ≡ ok parsed
    → 1 ≤ parsed.1
base_and_step-pos part none h = rw (← ok-injective h) (omega arith)
base_and_step-pos part (some (base, step_str)) h =
    let (step, read, e) = returned (step_of step_str) (λ step. ok (base, step)) h in
    let (pos, same) =
      required (is_digits step_str && leb 1 (number step_str)) bad_step (ok (number step_str))
        read in
    let large = ((and-eq-true_iff (is_digits step_str) (leb 1 (number step_str))).0 pos).1 in
    rw (← ok-injective e, ← ok-injective same) (ground arith)

-- the last step of the body
abbrev checked : ℕ → ℕ → ℕ × ℕ → ℕ → Result CronError Part
checked lo hi limits step =
    require (not (ltb limits.0 lo || ltb hi limits.1 || ltb limits.1 limits.0)) out_of_range
      (ok (record { start = limits.0; end = limits.1; step = step }))

checked-IsPart :
    (lo hi : ℕ) (limits : ℕ × ℕ) (step : ℕ) {p : Part}
    → 1 ≤ step
    → checked lo hi limits step ≡ ok p
    → IsPart lo hi p
checked-IsPart lo hi limits step pos h =
    let (fits, e) =
      required (not (ltb limits.0 lo || ltb hi limits.1 || ltb limits.1 limits.0)) out_of_range
        (ok (record { start = limits.0; end = limits.1; step = step })) h in
    rw (← ok-injective e) (record { above = ground arith; below = ground arith; pos = pos })

parse_part-IsPart :
    (lo hi : ℕ) (part : Text) {p : Part} → parse_part lo hi part ≡ ok p → IsPart lo hi p
unfolding parse_part
parse_part-IsPart lo hi part {p} h =
    let (parsed, read, rest) =
      returned (base_and_step part (split_first b'/' part))
        (λ parsed. bounds_of lo hi parsed.0 >>= λ limits. checked lo hi limits parsed.1) h in
    let (limits, _, last) =
      returned (bounds_of lo hi parsed.0) (λ limits. checked lo hi limits parsed.1) rest in
    checked-IsPart lo hi limits parsed.1 (base_and_step-pos part (split_first b'/' part) read) last

-- The set after a part, as the round leaves it.
abbrev after : List ℕ → Part → List ℕ
after vs p = update (p.end + 1 - p.start) p.start p.end p.step vs

module _ (lo hi v : ℕ) (vs : List ℕ) (part : Text) (p : Part)
    (read : parse_part lo hi part ≡ ok p) where
  Denotes-cons :
      (parts : List Text)
      → (member v (after vs p) ≡ true) ⊎ Denotes lo hi v parts
      → (member v vs ≡ true) ⊎ Denotes lo hi v (part ∷ parts)
  Denotes-cons parts (inr d) = inr (there d)
  Denotes-cons parts (inl m) = elim (update_inv (p.end + 1 - p.start) p.start p.end p.step v vs m) [
    | inl old ↦ inl old
    | inr r ↦ inr (here p read r)
  ]

  range-after : InRange p.start p.end p.step v → member v (after vs p) ≡ true
  range-after (k, e, le) =
      let ok_part = parse_part-IsPart lo hi part read in
      update-range (p.end + 1 - p.start) p.start p.end p.step v vs ok_part.pos (omega (arith, e))
        (k, e, le)

  Denotes-after :
      (parts : List Text)
      → Denotes lo hi v (part ∷ parts)
      → (member v (after vs p) ≡ true) ⊎ Denotes lo hi v parts
  Denotes-after parts (there d) = inr d
  Denotes-after parts (here q again r) = inl (range-after (rw (ok-injective (sym read ∙ again)) r))

  update-Denotes :
      (parts : List Text)
      → (member v vs ≡ true) ⊎ Denotes lo hi v (part ∷ parts)
      → (member v (after vs p) ≡ true) ⊎ Denotes lo hi v parts
  update-Denotes parts (inl m) =
      inl (member-update (p.end + 1 - p.start) p.start p.end p.step v vs m)
  update-Denotes parts (inr d) = Denotes-after parts d

-- Every part has been read as a range, and the set gains their values and no other.
parse_parts-Denotes :
    (lo hi v : ℕ) (parts : List Text) (vs : List ℕ) {values : List ℕ}
    → parse_parts lo hi parts vs ≡ ok values
    → (member v values ≡ true) ↔ ((member v vs ≡ true) ⊎ Denotes lo hi v parts)
unfolding parse_parts
parse_parts-Denotes lo hi v [] vs h =
    rw (← ok-injective h) (λ m. inl m, λ d. elim d [ inl m ↦ m | inr none_of ↦ elim none_of [ ] ])
parse_parts-Denotes lo hi v (part ∷ parts) vs h =
    let (p, read, rest) =
      returned (parse_part lo hi part) (λ p. parse_parts lo hi parts (after vs p)) h in
    let ih = parse_parts-Denotes lo hi v parts (after vs p) rest in
    (
      λ m. Denotes-cons lo hi v vs part p read parts (ih.0 m),
      λ d. ih.1 (update-Denotes lo hi v vs part p read parts d),
    )

Denotes-bounds : (lo hi v : ℕ) {parts : List Text} → Denotes lo hi v parts → (lo ≤ v) × (v ≤ hi)
Denotes-bounds lo hi v (there d) = Denotes-bounds lo hi v d
Denotes-bounds lo hi v (here {part} p read (k, e, le)) =
    let ok_part = parse_part-IsPart lo hi part read in
    (omega (arith, e, ok_part.above), omega (arith, ok_part.below))

-- When a field is accepted, the set that is returned has a value exactly when one of the parts
-- between its commas is read as a range that has it, and every value lies within the field's limits.
pub parse_field-Denotes :
    (token : Text) (lo hi v : ℕ) {values : List ℕ}
    → parse_field token lo hi ≡ ok values
    → ((member v values ≡ true) ↔ Denotes lo hi v (split_on b',' token))
      × (member v values ≡ true → (lo ≤ v) × (v ≤ hi))
unfolding parse_field
parse_field-Denotes token lo hi v h =
    let (_, parsed) =
      required (matches_pattern token) bad_character (parse_parts lo hi (split_on b',' token) [])
        h in
    let reading = parse_parts-Denotes lo hi v (split_on b',' token) [] parsed in
    (
      (λ m. started (reading.0 m), λ d. reading.1 (inr d)),
      λ m. Denotes-bounds lo hi v (started (reading.0 m)),
    )
  where
    started : {A : Type 0} → (◌≡◌ {A = Bool} false true) ⊎ A → A
    started (inl e) = absurd (cc e)
    started (inr d) = d
