-- ===== src/Alerts/Firing.antt =====
-- How many alerts of a rule are firing, before and after an evaluation.
use mimir_backend.Prelude.{
  ℕ, ◌+◌, ◌≤◌, String, ◌≡◌, refl, ap, ◌∙◌, Bool, true, false, List, [], ◌∷◌, ◌++◌, Option, none,
  some, arith, inl, inr, Bool-cases, Option-cases, keep, length, str_eq, eq_iff, eq_refl,
  if◌then◌else◌,
}
use mimir_backend.Alerts.Evaluator.{
  Rule, History, Stats, Calls, Outcome, fired, resolved, skipped, unchanged, evaluate_condition,
  is_firing, get_firing_history, insert_firing, resolve, resolve_firing, fire_if_new,
  evaluate_value, evaluate_rule, count, evaluate_rules, evaluate_all, no_stats,
}

bounded :
    (o : Outcome) (s : Stats)
    → s.fired + s.resolved + s.skipped ≤ s.evaluated
    → (count o s).fired + (count o s).resolved + (count o s).skipped ≤ (count o s).evaluated
bounded fired s h = omega arith
bounded resolved s h = omega arith
bounded skipped s h = omega arith
bounded unchanged s h = omega arith

one_more : (o : Outcome) (s : Stats) → (count o s).evaluated ≡ s.evaluated + 1
one_more fired s = refl
one_more resolved s = refl
one_more skipped s = refl
one_more unchanged s = refl

abbrev one : Bool → ℕ
one b = if b then 1 else 0

zero_both :
    (b : Bool) (x y u v : ℕ)
    → x ≡ (if b then 0 else u)
    → y ≡ (if b then 0 else v)
    → x + y ≡ (if b then 0 else u + v)
zero_both true x y u v e k = omega arith
zero_both false x y u v e k = omega arith

module _ {F : Type 0} where
  -- The number of the firing rows of a rule.
  abbrev pub firing_count : String → List (History F) → ℕ
  firing_count id [] = 0
  firing_count id (h ∷ rows) = one (is_firing id h) + firing_count id rows

  count-none :
      (rows : List (History F)) (id : String)
      → get_firing_history rows id ≡ none
      → firing_count id rows ≡ 0
  unfolding get_firing_history
  count-none [] id e = refl
  count-none (h ∷ rows) id e = elim (Bool-cases (is_firing id h)) [
    | inl b ↦ absurd (cc (rw b at e))
    | inr b ↦ rw b (omega (arith, count-none rows id (rw b at e)))
  ]

  count-some :
      (rows : List (History F)) (id : String) (h : History F)
      → get_firing_history rows id ≡ some h
      → 1 ≤ firing_count id rows
  unfolding get_firing_history
  count-some [] id h e = absurd (cc e)
  count-some (g ∷ rows) id h e = elim (Bool-cases (is_firing id g)) [
    | inl b ↦ rw b (omega arith)
    | inr b ↦ rw b (omega (arith, count-some rows id h (rw b at e)))
  ]

  count-append :
      (id : String) (xs ys : List (History F))
      → firing_count id (xs ++ ys) ≡ firing_count id xs + firing_count id ys
  count-append id [] ys = omega arith
  count-append id (x ∷ xs) ys = omega (arith, count-append id xs ys)

  count-insert_firing :
      (rows : List (History F)) (id j : String) (v : F) (channels : List String)
      → firing_count j (insert_firing rows id v channels)
        ≡ firing_count j rows + (if str_eq id j then 1 else 0)
  unfolding insert_firing
  count-insert_firing rows id j v channels = count-append j rows _ ∙ ground (arith)

  one-resolve :
      (id j : String) (h : History F)
      → one (is_firing j (resolve id h)) ≡ (if str_eq id j then 0 else one (is_firing j h))
  one-resolve id j h = elim (Bool-cases (str_eq h.rule_id id)) [
    | inl a ↦ elim (Bool-cases (str_eq h.status "firing")) [
      | inl b ↦ rw (a, b) (ground (arith, eq_iff h.rule_id id, eq_iff h.rule_id j, eq_iff id j))
      | inr b ↦ rw (a, b) (ground arith)
    ]
    | inr a ↦ rw a (ground (arith, eq_iff h.rule_id id, eq_iff h.rule_id j, eq_iff id j))
  ]

  count-resolve_firing :
      (rows : List (History F)) (id j : String)
      → firing_count j (resolve_firing rows id) ≡ (if str_eq id j then 0 else firing_count j rows)
  unfolding resolve_firing
  count-resolve_firing [] id j = ground arith
  count-resolve_firing (h ∷ rows) id j =
      zero_both (str_eq id j) _ _ (one (is_firing j h)) (firing_count j rows) (one-resolve id j h)
        (count-resolve_firing rows id j)

  -- No rule has two alerts firing.
  abbrev pub AtMostOne : List (History F) → Type 0
  AtMostOne rows = (id : String) → firing_count id rows ≤ 1

  fire_if_new-AtMostOne :
      (calls : Calls F) (rows : List (History F)) (rule : Rule F) (v : F) (o : Option (History F))
      → get_firing_history rows rule.id ≡ o
      → AtMostOne rows
      → AtMostOne (fire_if_new calls rows rule v o).1
  fire_if_new-AtMostOne calls rows rule v (some h) e single id = single id
  fire_if_new-AtMostOne calls rows rule v none e single id =
      elim (Option-cases (calls.notify rule v)) [
        | inl n ↦ rw n (single id)
        | inr (channels, n) ↦
            rw (n, count-insert_firing rows rule.id id v channels)
              (elim (Bool-cases (str_eq rule.id id)) [
                | inl b ↦ rw b (
                    omega (
                      arith,
                      ap (λ (k : String). firing_count k rows) ((eq_iff rule.id id).0 b),
                      count-none rows rule.id e,
                    ))
                | inr b ↦ rw b (omega (arith, single id))
              ])
      ]

  resolve_firing-AtMostOne :
      (rows : List (History F)) (rule : String)
      → AtMostOne rows
      → AtMostOne (resolve_firing rows rule)
  resolve_firing-AtMostOne rows rule single id = elim (Bool-cases (str_eq rule id)) [
    | inl b ↦ rw (count-resolve_firing rows rule id, b) (omega arith)
    | inr b ↦ rw (count-resolve_firing rows rule id, b) (single id)
  ]

  evaluate_value-AtMostOne :
      (calls : Calls F) (rows : List (History F)) (rule : Rule F) (o : Option F)
      → AtMostOne rows
      → AtMostOne (evaluate_value calls rows rule o).1
  evaluate_value-AtMostOne calls rows rule none single = single
  evaluate_value-AtMostOne calls rows rule (some v) single =
      elim (Bool-cases (evaluate_condition calls.compared v rule)) [
        | inl b ↦
            rw b (
              fire_if_new-AtMostOne calls rows rule v (get_firing_history rows rule.id) refl single)
        | inr b ↦ rw b (resolve_firing-AtMostOne rows rule.id single)
      ]

  evaluate_rules-AtMostOne :
      (calls : Calls F) (rules : List (Rule F)) (s : Stats) (rows : List (History F))
      → AtMostOne rows
      → AtMostOne (evaluate_rules calls rules s rows).1
  unfolding evaluate_rules evaluate_rule
  evaluate_rules-AtMostOne calls [] s rows single = single
  evaluate_rules-AtMostOne calls (rule ∷ rules) s rows single =
      evaluate_rules-AtMostOne calls rules _ _ (
        evaluate_value-AtMostOne calls rows rule (calls.fetch_metric_value rule.metric_name) single)

  counted_rules :
      (calls : Calls F) (rules : List (Rule F)) (s : Stats) (rows : List (History F))
      → (s.fired + s.resolved + s.skipped ≤ s.evaluated)
      → let s' = (evaluate_rules calls rules s rows).0 in
        (s'.evaluated ≡ s.evaluated + length rules)
        × (s'.fired + s'.resolved + s'.skipped ≤ s'.evaluated)
  unfolding evaluate_rules
  counted_rules calls [] s rows h = (omega arith, h)
  counted_rules calls (rule ∷ rules) s rows h =
      let (o, rows') = evaluate_rule calls rows rule in
      let (total, bound) = counted_rules calls rules (count o s) rows' (bounded o s h) in
      (omega (arith, total, one_more o s), bound)

-- If no rule has two alerts firing, none has after an evaluation of any rules. The evaluation counts
-- each enabled rule once, and no more results than rules.
pub evaluate_all-AtMostOne :
    {F : Type 0} (calls : Calls F) (rules : List (Rule F)) (rows : List (History F))
    → AtMostOne rows
    → let (s, rows') = evaluate_all calls rules rows in
      AtMostOne rows'
      × (s.evaluated ≡ length (keep (λ (r : Rule F). r.enabled) rules))
      × (s.fired + s.resolved + s.skipped ≤ s.evaluated)
unfolding evaluate_all
evaluate_all-AtMostOne calls rules rows single =
    let enabled = keep (λ (r : Rule _). r.enabled) rules in
    let (total, bound) = counted_rules calls enabled no_stats rows (omega arith) in
    (evaluate_rules-AtMostOne calls enabled no_stats rows single, total ∙ omega arith, bound)

-- What an evaluated rule should leave: one firing alert if its condition holds, none if not.
abbrev pub due : {F : Type 0} → Calls F → Rule F → F → ℕ
due calls rule v = if evaluate_condition calls.compared v rule then 1 else 0

fires :
    {F : Type 0} (calls : Calls F) (rows : List (History F)) (rule : Rule F) (v : F)
    (channels : List String) (o : Option (History F))
    → get_firing_history rows rule.id ≡ o
    → calls.notify rule v ≡ some channels
    → AtMostOne rows
    → firing_count rule.id (fire_if_new calls rows rule v o).1 ≡ 1
fires calls rows rule v channels (some h) e n single =
    omega (arith, count-some rows rule.id h e, single rule.id)
fires calls rows rule v channels none e n single =
    rw (n, count-insert_firing rows rule.id rule.id v channels, eq_refl rule.id)
      (omega (arith, count-none rows rule.id e))

-- A rule whose metric has a value and whose notifier answers has, after its evaluation, exactly one
-- firing alert if its condition holds, and none if it does not.
pub evaluate_rule-settles :
    {F : Type 0} (calls : Calls F) (rows : List (History F)) (rule : Rule F) (v : F)
    (channels : List String)
    → calls.fetch_metric_value rule.metric_name ≡ some v
    → calls.notify rule v ≡ some channels
    → AtMostOne rows
    → firing_count rule.id (evaluate_rule calls rows rule).1 ≡ due calls rule v
unfolding evaluate_rule
evaluate_rule-settles calls rows rule v channels value n single =
    rw value (elim (Bool-cases (evaluate_condition calls.compared v rule)) [
      | inl b ↦
          rw b (fires calls rows rule v channels (get_firing_history rows rule.id) refl n single)
      | inr b ↦ rw b (count-resolve_firing rows rule.id rule.id ∙ rw (eq_refl rule.id) refl)
    ])
