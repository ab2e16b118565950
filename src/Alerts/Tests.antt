-- ===== src/Alerts/Tests.antt =====
-- The alert theorems at a rule on a queue's length, with natural numbers for the values.
use mimir_backend.Prelude.{
  ℕ, ◌+◌, ◌≤◌, ◌≡◌, refl, true, not, some, [], ◌∷◌, List, String, arith, ltb, leb, ◌==◌,
}
use mimir_backend.Alerts.Evaluator.{
  Rule, History, Calls, Comparisons, comparison, evaluate_condition, evaluate_rule, evaluate_all,
}
use mimir_backend.Alerts.Firing.{
  firing_count, AtMostOne, evaluate_all-AtMostOne, evaluate_rule-settles,
}

abbrev on_naturals : Comparisons ℕ
on_naturals = record {
  gt = λ (a b : ℕ). ltb b a;
  ge = λ (a b : ℕ). leb b a;
  lt = ltb;
  le = leb;
  eq = λ (a b : ℕ). a == b;
  ne = λ (a b : ℕ). not (a == b);
}

abbrev long_queue : Rule ℕ
long_queue = record {
  id = "r1";
  metric_name = "job.queue_length";
  operator = "gt";
  threshold = some 100;
  enabled = true;
}

abbrev calls : Calls ℕ
calls = record {
  compared = on_naturals;
  fetch_metric_value = λ (name : String). some 120;
  notify = λ (r : Rule ℕ) (v : ℕ). some ("email" ∷ []);
}

abbrev no_history : List (History ℕ)
no_history = []

AtMostOne-no_history : AtMostOne no_history
AtMostOne-no_history id = omega arith

evaluate_all-AtMostOne_example :
    let (s, rows) = evaluate_all calls (long_queue ∷ []) no_history in
    AtMostOne rows × (s.evaluated ≡ 1) × (s.fired + s.resolved + s.skipped ≤ s.evaluated)
evaluate_all-AtMostOne_example =
    evaluate_all-AtMostOne calls (long_queue ∷ []) no_history AtMostOne-no_history

evaluate_rule-settles_example : firing_count "r1" (evaluate_rule calls no_history long_queue).1 ≡ 1
unfolding evaluate_condition comparison
evaluate_rule-settles_example =
    evaluate_rule-settles calls no_history long_queue 120 ("email" ∷ []) refl refl
      AtMostOne-no_history
