-- ===== src/Tests/Gates.antt =====
-- The theorems on the Prometheus gates at concrete inputs.
use smart_warehouse_platform.Prelude.{
  ℕ, leb, [], ◌∷◌, none, some, ◌≡◌, ◌↔◌, All, inl, refl, if◌then◌else◌,
}
use smart_warehouse_platform.Prelude.Eq.{◌==◌, string_eq}
use smart_warehouse_platform.Gates.{Floats, main, timed_out, exits}
use smart_warehouse_platform.Gates.Verdict.{
  Answers, IsIncomplete, report, main-verdict, main-timeout,
}

-- Numbers of thousandths.
abbrev thousandths : Floats
thousandths = record { Float = ℕ; at_most = leb; thousandths = λ n. n }

abbrev no_answers : Answers thousandths
no_answers name = none

-- An availability of 0.97, below its target, and good times.
abbrev answers : Answers thousandths
answers name =
    if name == "api_availability"
    then some 970
    else if name == "wms_latency_p95_seconds"
    then some 400
    else some 500

main-verdict_example :
    main thousandths (no_answers ∷ answers ∷ []) ≡ exits 0 (report thousandths 970 400 500)
main-verdict_example =
    main-verdict thousandths (no_answers ∷ []) answers [] 970 400 500 (inl refl, tt) refl refl refl

-- Prometheus has no latency yet.
abbrev no_latency : Answers thousandths
no_latency name = if name == "wms_latency_p95_seconds" then none else some 970

main-timeout_example :
    (main thousandths (no_latency ∷ no_latency ∷ []) ≡ timed_out)
    ↔ All (IsIncomplete thousandths) (no_latency ∷ no_latency ∷ [])
main-timeout_example = main-timeout thousandths (no_latency ∷ no_latency ∷ [])
