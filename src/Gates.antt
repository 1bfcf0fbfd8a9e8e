-- ===== src/Gates.antt =====
-- scripts/check_prometheus_gates.py: the evaluation of the gates, and the wait for their values.
pub mod Verdict
use smart_warehouse_platform.Prelude.{
  String, ℕ, Bool, true, false, not, List, [], ◌∷◌, ◌++◌, Option, none, some, Dict, lookup,
  if◌then◌else◌,
}
use smart_warehouse_platform.Prelude.Eq.{◌==◌, string_eq}

-- Python's floats: `a <= b`, and the float of so many thousandths.
pub record Floats : Type 1 where
  pub Float : Type 0
  pub at_most : Float → Float → Bool
  pub thousandths : ℕ → Float

-- An entry of `QUERIES` without its PromQL text; the two bounds in thousandths.
pub record Query : Type 0 where
  pub name : String
  pub comparison : String
  pub target : ℕ
  pub failure_threshold : ℕ
  pub unit : String

abbrev pub availability_query : Query
availability_query = record {
  name = "api_availability";
  comparison = "gte";
  target = 995;
  failure_threshold = 950;
  unit = "ratio";
}

abbrev pub latency_query : Query
latency_query = record {
  name = "wms_latency_p95_seconds";
  comparison = "lte";
  target = 500;
  failure_threshold = 1_000;
  unit = "seconds";
}

abbrev pub delay_query : Query
delay_query = record {
  name = "event_end_to_end_delay_p95_seconds";
  comparison = "lte";
  target = 5_000;
  failure_threshold = 10_000;
  unit = "seconds";
}

-- The values of `QUERIES`, in order.
abbrev pub queries : List Query
queries = availability_query ∷ latency_query ∷ delay_query ∷ []

module _ (floats : Floats) where
  -- `none` is the ValueError.
  unfoldable pub evaluate : String → floats.Float → floats.Float → Option Bool
  evaluate comparison actual target =
      if comparison == "gte"
      then some (floats.at_most target actual)
      else (if comparison == "lte" then some (floats.at_most actual target) else none)

  -- A round of `wait_for_metrics` over the queries: `none` if a value is missing. What Prometheus
  -- answers to a query's expression is given by the query's name; it has no value that is not a
  -- finite number.
  unfoldable pub collect :
      (String → Option floats.Float) → List Query → Option (Dict String floats.Float)
  collect answers [] = some []
  collect answers (query ∷ rest) =
      let others = collect answers rest in
      elim (answers query.name) [
        | none ↦ none
        | some value ↦ elim others [
          | none ↦ none
          | some values ↦ some ((query.name, value) ∷ values)
        ]
      ]

  -- The rounds until the deadline: `none` is the RuntimeError.
  unfoldable pub wait_for_metrics :
      List (String → Option floats.Float) → Option (Dict String floats.Float)
  unfolding collect
  wait_for_metrics [] = none
  wait_for_metrics (answers ∷ rounds) =
      let later = wait_for_metrics rounds in
      elim (collect answers queries) [ none ↦ later | some results ↦ some results ]

  -- An entry of `report["checks"]`.
  pub record Check : Type 0 where
    pub query : Query
    pub value : floats.Float
    pub target_passed : Bool
    pub gate_passed : Bool

  unfoldable pub check_of : Query → floats.Float → Option Check
  unfolding evaluate
  check_of query value = elim (evaluate query.comparison value (floats.thousandths query.target)) [
    | none ↦ none
    | some target_passed ↦
        elim (evaluate query.comparison value (floats.thousandths query.failure_threshold)) [
          | none ↦ none
          | some gate_passed ↦ some (record {
            query = query;
            value = value;
            target_passed = target_passed;
            gate_passed = gate_passed;
          })
        ]
  ]

  -- The loop of `main` over the queries: a KeyError for a value that is not there.
  unfoldable pub checks_of : Dict String floats.Float → List Query → Option (List Check)
  unfolding check_of
  checks_of results [] = some []
  checks_of results (query ∷ rest) =
      let others = checks_of results rest in
      elim (lookup query.name results) [
        | none ↦ none
        | some value ↦ elim (check_of query value) [
          | none ↦ none
          | some check ↦ elim others [ none ↦ none | some checks ↦ some (check ∷ checks) ]
        ]
      ]

  -- The names in `warnings` and in `failures`.
  abbrev pub failing : (Check → Bool) → List Check → List String
  failing passed [] = []
  failing passed (check ∷ checks) =
      let others = failing passed checks in
      if not (passed check) then check.query.name ∷ others else others

  abbrev pub exit_of : List String → ℕ
  exit_of [] = 0
  exit_of (failure ∷ failures) = 1

  -- How `main` ends: the RuntimeError of the deadline, a KeyError or a ValueError of the checks, or an
  -- exit code with the checks that the report holds.
  pub data Exit : Type 0 where
    timed_out other_error : Exit
    exits : ℕ → List Check → Exit

  unfoldable pub main : List (String → Option floats.Float) → Exit
  unfolding wait_for_metrics checks_of
  main rounds = elim (wait_for_metrics rounds) [
    | none ↦ timed_out
    | some results ↦ elim (checks_of results queries) [
      | none ↦ other_error
      | some checks ↦ exits (exit_of (failing (λ check. check.gate_passed) checks)) checks
    ]
  ]
