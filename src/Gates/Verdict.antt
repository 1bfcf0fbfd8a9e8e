-- ===== src/Gates/Verdict.antt =====
-- When the gates pass.
use smart_warehouse_platform.Prelude.{
  String, Bool, true, false, ◌&&◌, List, [], ◌∷◌, ◌++◌, All, Option, none, some, ◌≡◌, ◌↔◌, ◌⊎◌, inl,
  inr, Option-cases, refl, sym, ap, ◌∙◌, if◌then◌else◌,
}
use smart_warehouse_platform.Prelude.Eq.{string_eq}
use smart_warehouse_platform.Gates.{
  Floats, Query, queries, availability_query, latency_query, delay_query, evaluate, collect,
  wait_for_metrics, Check, check_of, checks_of, failing, exit_of, timed_out, exits, main,
}

module _ (floats : Floats) where
  abbrev pub Answers : Type 0
  Answers = String → Option floats.Float

  -- A value is missing.
  abbrev pub IsIncomplete : Answers → Type 0
  IsIncomplete answers =
      (answers "api_availability" ≡ none)
      ⊎ ((answers "wms_latency_p95_seconds" ≡ none)
          ⊎ (answers "event_end_to_end_delay_p95_seconds" ≡ none))

  IsIncomplete-collect :
      (answers : Answers) → IsIncomplete answers → collect floats answers queries ≡ none
  unfolding collect
  IsIncomplete-collect answers (inl e) = rw e refl
  IsIncomplete-collect answers (inr (inl e)) = elim (Option-cases (answers "api_availability")) [
    | inl a ↦ rw a refl
    | inr (availability, a) ↦ rw a (rw e refl)
  ]
  IsIncomplete-collect answers (inr (inr e)) = elim (Option-cases (answers "api_availability")) [
    | inl a ↦ rw a refl
    | inr (availability, a) ↦ elim (Option-cases (answers "wms_latency_p95_seconds")) [
      | inl l ↦ rw a (rw l refl)
      | inr (latency, l) ↦ rw a (rw l (rw e refl))
    ]
  ]

  main_incomplete :
      (answers : Answers) (later : List Answers)
      → IsIncomplete answers
      → main floats (answers ∷ later) ≡ main floats later
  unfolding main wait_for_metrics
  main_incomplete answers later h = rw (main, wait_for_metrics, IsIncomplete-collect answers h) refl

  -- The gates' bounds on the three values.
  abbrev pub all_pass : floats.Float → floats.Float → floats.Float → Bool
  all_pass availability latency delay =
      floats.at_most (floats.thousandths 950) availability
      && floats.at_most latency (floats.thousandths 1_000)
      && floats.at_most delay (floats.thousandths 10_000)

  -- A check of the report.
  abbrev pub judged : Query → floats.Float → Bool → Bool → Check floats
  judged query value target_passed gate_passed = record {
    query = query;
    value = value;
    target_passed = target_passed;
    gate_passed = gate_passed;
  }

  -- What the report says of the three values.
  abbrev pub report : floats.Float → floats.Float → floats.Float → List (Check floats)
  report availability latency delay =
      judged availability_query availability (floats.at_most (floats.thousandths 995) availability)
        (floats.at_most (floats.thousandths 950) availability)
      ∷ judged latency_query latency (floats.at_most latency (floats.thousandths 500))
          (floats.at_most latency (floats.thousandths 1_000))
      ∷ judged delay_query delay (floats.at_most delay (floats.thousandths 5_000))
          (floats.at_most delay (floats.thousandths 10_000))
      ∷ []

  exit_code :
      (a b c : Bool) (availability latency delay : floats.Float) (t u v : Bool)
      → exit_of floats (
          failing floats
            (λ check. check.gate_passed)
            (judged availability_query availability t a
              ∷ judged latency_query latency u b
              ∷ judged delay_query delay v c
              ∷ []))
        ≡ (if a && b && c then 0 else 1)
  exit_code true true true availability latency delay t u v = refl
  exit_code true true false availability latency delay t u v = refl
  exit_code true false c availability latency delay t u v = refl
  exit_code false b c availability latency delay t u v = refl

  main_complete :
      (answers : Answers) (later : List Answers) (availability latency delay : floats.Float)
      → answers "api_availability" ≡ some availability
      → answers "wms_latency_p95_seconds" ≡ some latency
      → answers "event_end_to_end_delay_p95_seconds" ≡ some delay
      → main floats (answers ∷ later)
        ≡ exits
            (if all_pass availability latency delay then 0 else 1)
            (report availability latency delay)
  unfolding main wait_for_metrics collect checks_of check_of evaluate
  main_complete answers later availability latency delay ha hl hd = rw ha (
      rw hl (
        rw hd (
          ap (λ code. exits code (report availability latency delay))
            (exit_code (floats.at_most (floats.thousandths 950) availability)
              (floats.at_most latency (floats.thousandths 1_000))
              (floats.at_most delay (floats.thousandths 10_000)) availability latency delay
              (floats.at_most (floats.thousandths 995) availability)
              (floats.at_most latency (floats.thousandths 500))
              (floats.at_most delay (floats.thousandths 5_000))))))

  -- The first answers in which no value is missing decide: the script exits with 0 if the availability
  -- is at least 0.95, the latency at most 1 and the delay at most 10, and with 1 otherwise; and the
  -- report says of each of the three whether it met its gate and whether it met its target, which is
  -- 0.995, 0.5 or 5 and is met by a value that equals it.
  pub main-verdict :
      (incomplete : List Answers) (answers : Answers) (later : List Answers)
      (availability latency delay : floats.Float)
      → All IsIncomplete incomplete
      → answers "api_availability" ≡ some availability
      → answers "wms_latency_p95_seconds" ≡ some latency
      → answers "event_end_to_end_delay_p95_seconds" ≡ some delay
      → main floats (incomplete ++ answers ∷ later)
        ≡ exits
            (if all_pass availability latency delay then 0 else 1)
            (report availability latency delay)
  main-verdict [] answers later availability latency delay h ha hl hd =
      main_complete answers later availability latency delay ha hl hd
  main-verdict (first ∷ incomplete) answers later availability latency delay h ha hl hd =
      main_incomplete first (incomplete ++ answers ∷ later) h.0
      ∙ main-verdict incomplete answers later availability latency delay h.1 ha hl hd

  -- The answers have all three values, or not.
  complete-cases :
      (answers : Answers)
      → IsIncomplete answers
        ⊎ ((availability : floats.Float) × (latency : floats.Float) × (delay : floats.Float)
            × (answers "api_availability" ≡ some availability)
            × (answers "wms_latency_p95_seconds" ≡ some latency)
            × (answers "event_end_to_end_delay_p95_seconds" ≡ some delay))
  complete-cases answers = elim (Option-cases (answers "api_availability")) [
    | inl e ↦ inl (inl e)
    | inr (availability, a) ↦ elim (Option-cases (answers "wms_latency_p95_seconds")) [
      | inl e ↦ inl (inr (inl e))
      | inr (latency, l) ↦ elim (Option-cases (answers "event_end_to_end_delay_p95_seconds")) [
        | inl e ↦ inl (inr (inr e))
        | inr (delay, d) ↦ inr (availability, latency, delay, a, l, d)
      ]
    ]
  ]

  first-IsIncomplete :
      (answers : Answers) (later : List Answers)
      → main floats (answers ∷ later) ≡ timed_out
      → IsIncomplete answers
  first-IsIncomplete answers later h = elim (complete-cases answers) [
    | inl missing ↦ missing
    | inr (availability, latency, delay, a, l, d) ↦
        absurd (cc (main_complete answers later availability latency delay a l d, h))
  ]

  -- The script raises at the deadline exactly if a value is missing in the answers of every round.
  pub main-timeout :
      (rounds : List Answers) → (main floats rounds ≡ timed_out) ↔ All IsIncomplete rounds
  unfolding main wait_for_metrics
  main-timeout [] = ((λ e. tt), (λ h. refl))
  main-timeout (first ∷ rounds) = (
    (λ e.
        let missing = first-IsIncomplete first rounds e in
        (missing, (main-timeout rounds).0 (sym (main_incomplete first rounds missing) ∙ e))),
    (λ h. main_incomplete first rounds h.0 ∙ (main-timeout rounds).1 h.1),
  )
