-- ===== src/Alerts/Evaluator.antt =====
-- One evaluation of all rules. The numbers, their comparisons, the metrics and the notifier are
-- arguments; the history is the list of its rows.
use mimir_backend.Prelude.{
  ℕ, ◌+◌, String, Bool, false, ◌&&◌, List, [], ◌∷◌, ◌++◌, map, Option, none, some, any, keep, find?,
  str_eq, if◌then◌else◌,
}

-- The six comparisons of the module `operator`.
pub record Comparisons (F : Type 0) : Type 0 where
  pub gt : F → F → Bool
  pub ge : F → F → Bool
  pub lt : F → F → Bool
  pub le : F → F → Bool
  pub eq : F → F → Bool
  pub ne : F → F → Bool

-- A rule; `threshold` is missing when it is no number.
pub record Rule (F : Type 0) : Type 0 where
  pub id : String
  pub metric_name : String
  pub operator : String
  pub threshold : Option F
  pub enabled : Bool

pub record History (F : Type 0) : Type 0 where
  pub rule_id : String
  pub status : String
  pub metric_value : F
  pub notified_channels : List String

pub record Stats : Type 0 where
  pub evaluated : ℕ
  pub fired : ℕ
  pub resolved : ℕ
  pub skipped : ℕ

-- What the evaluator calls: the value of a metric, if there is one, and the channels that were
-- notified, if the notifier does not raise.
pub record Calls (F : Type 0) : Type 0 where
  pub compared : Comparisons F
  pub fetch_metric_value : String → Option F
  pub notify : Rule F → F → Option (List String)

-- What became of one rule.
pub data Outcome : Type 0 where
  fired resolved skipped unchanged : Outcome

-- the counters, after one rule
abbrev pub count : Outcome → Stats → Stats
count fired s = record s { evaluated = s.evaluated + 1; fired = s.fired + 1 }
count resolved s = record s { evaluated = s.evaluated + 1; resolved = s.resolved + 1 }
count skipped s = record s { evaluated = s.evaluated + 1; skipped = s.skipped + 1 }
count unchanged s = record s { evaluated = s.evaluated + 1 }

abbrev pub no_stats : Stats
no_stats = record { evaluated = 0; fired = 0; resolved = 0; skipped = 0 }

module _ {F : Type 0} where
  -- `_OPS`
  unfoldable pub comparison : Comparisons F → String → Option (F → F → Bool)
  comparison c op =
      if str_eq op "gt"
      then some c.gt
      else if str_eq op "gte"
      then some c.ge
      else if str_eq op "lt"
      then some c.lt
      else if str_eq op "lte"
      then some c.le
      else if str_eq op "eq"
      then some c.eq
      else if str_eq op "ne"
      then some c.ne
      else none

  abbrev pub compared_with : Option (F → F → Bool) → F → Option F → Bool
  compared_with none value threshold = false
  compared_with (some test) value none = false
  compared_with (some test) value (some threshold) = test value threshold

  -- `evaluate_condition`
  unfoldable pub evaluate_condition : Comparisons F → F → Rule F → Bool
  evaluate_condition c value rule = compared_with (comparison c rule.operator) value rule.threshold

  abbrev pub is_firing : String → History F → Bool
  is_firing id h = str_eq h.rule_id id && str_eq h.status "firing"

  -- `get_firing_history`
  unfoldable pub get_firing_history : List (History F) → String → Option (History F)
  get_firing_history rows id = find? (is_firing id) rows

  -- `insert_firing`
  unfoldable pub insert_firing : List (History F) → String → F → List String → List (History F)
  insert_firing rows id value channels =
      rows
      ++ record {
        rule_id = id;
        status = "firing";
        metric_value = value;
        notified_channels = channels;
      }
        ∷ []

  abbrev pub resolve : String → History F → History F
  resolve id h = if is_firing id h then record h { status = "resolved" } else h

  -- the UPDATE of `resolve_firing`
  unfoldable pub resolve_firing : List (History F) → String → List (History F)
  resolve_firing rows id = map (resolve id) rows

  abbrev pub insert_notified :
      List (History F) → Rule F → F → Option (List String) → Outcome × List (History F)
  insert_notified rows rule value none = (skipped, rows)
  insert_notified rows rule value (some channels) =
      (fired, insert_firing rows rule.id value channels)

  -- `_fire_if_new`; an exception of the notifier is caught by the loop
  abbrev pub fire_if_new :
      Calls F → List (History F) → Rule F → F → Option (History F) → Outcome × List (History F)
  fire_if_new calls rows rule value (some existing) = (unchanged, rows)
  fire_if_new calls rows rule value none = insert_notified rows rule value (calls.notify rule value)

  -- `_resolve_if_firing`
  abbrev pub resolve_if_firing : List (History F) → Rule F → Outcome × List (History F)
  resolve_if_firing rows rule =
      (if any (is_firing rule.id) rows then resolved else unchanged, resolve_firing rows rule.id)

  abbrev pub evaluate_value :
      Calls F → List (History F) → Rule F → Option F → Outcome × List (History F)
  evaluate_value calls rows rule none = (skipped, rows)
  evaluate_value calls rows rule (some value) =
      if evaluate_condition calls.compared value rule
      then fire_if_new calls rows rule value (get_firing_history rows rule.id)
      else resolve_if_firing rows rule

  -- the body of the loop
  unfoldable pub evaluate_rule : Calls F → List (History F) → Rule F → Outcome × List (History F)
  evaluate_rule calls rows rule =
      evaluate_value calls rows rule (calls.fetch_metric_value rule.metric_name)

  unfoldable pub evaluate_rules :
      Calls F → List (Rule F) → Stats → List (History F) → Stats × List (History F)
  evaluate_rules calls [] stats rows = (stats, rows)
  evaluate_rules calls (rule ∷ rules) stats rows =
      let (outcome, rows') = evaluate_rule calls rows rule in
      evaluate_rules calls rules (count outcome stats) rows'

  -- `evaluate_all`
  unfoldable pub evaluate_all :
      Calls F → List (Rule F) → List (History F) → Stats × List (History F)
  evaluate_all calls rules rows =
      evaluate_rules calls (keep (λ (r : Rule F). r.enabled) rules) no_stats rows
