-- ===== src/Tests/Observed.antt =====
-- The theorem on the HTTP metrics at concrete inputs.
use smart_warehouse_platform.Prelude.{
  String, ℕ, ◌+◌, List, [], ◌∷◌, ◌++◌, Option, none, some, Dict, lookup, insert, lookup-insert, ◌≡◌,
  ◌∙◌, refl, arith, if◌then◌else◌,
}
use mathlib.Core.List.{append-nil}
use smart_warehouse_platform.Prelude.Eq.{Eq, ◌==◌, string_eq, nat_eq}
use smart_warehouse_platform.Observability.{
  HttpMetrics, Request, responds, raises, Client, Counters, Histograms, pair_eq, error_type_eq,
  prometheus_http_middleware, resolve_endpoint_label, resolve_error_type, unhandled_exception,
  service_unavailable, initialize_http_metric_series,
}
use smart_warehouse_platform.Observability.Counted.{
  Served, serve, occurrences, request_labels, error_labels, durations_at, serve-counts,
}

abbrev value_or : {V : Type 0} → V → Option V → V
value_or start none = start
value_or start (some v) = v

module _ {K V : Type 0} ⦃e : Eq K⦄ where
  -- The value of a series, or that of a new one.
  abbrev value_of : V → K → Dict K V → V
  value_of start k series = value_or start (lookup k series)

  abbrev label_in : V → K → Dict K V → Dict K V
  label_in start k series = insert k (value_of start k series) series

  value_of-insert :
      (start : V) (j k : K) (v : V) (series : Dict K V)
      → value_of start j (insert k v series) ≡ (if k == j then v else value_of start j series)
  value_of-insert start j k v series = rw (lookup-insert k j v series) (ground arith)

  value_of-label_in :
      (start : V) (j k : K) (series : Dict K V)
      → value_of start j (label_in start k series) ≡ value_of start j series
  value_of-label_in start j k series =
      ground (arith, value_of-insert start j k (value_of start k series) series, e.beq_iff k j)

module _ {K : Type 0} (e : Eq K) where
  value_of-suc :
      (j k : K) (series : Dict K ℕ)
      → value_of ⦃e = e⦄ 0 j (insert ⦃e = e⦄ k (1 + value_of ⦃e = e⦄ 0 k series) series)
        ≡ value_of ⦃e = e⦄ 0 j series + (if e.beq k j then 1 else 0)
  value_of-suc j k series =
      ground (
        arith,
        value_of-insert ⦃e = e⦄ 0 j k (1 + value_of ⦃e = e⦄ 0 k series) series,
        e.beq_iff k j,
      )

  -- Counters and histograms in memory.
  abbrev counters_in_memory : Counters K e
  counters_in_memory = record {
    Series = Dict K ℕ;
    value = value_of ⦃e = e⦄ 0;
    labels = label_in ⦃e = e⦄ 0;
    inc = λ k series. insert ⦃e = e⦄ k (1 + value_of ⦃e = e⦄ 0 k series) series;
    value-labels = value_of-label_in ⦃e = e⦄ 0;
    value-inc = value_of-suc;
  }

  observed_in_memory :
      (j k : K) (x : ℕ) (series : Dict K (List ℕ))
      → value_of ⦃e = e⦄ [] j (insert ⦃e = e⦄ k (value_of ⦃e = e⦄ [] k series ++ x ∷ []) series)
        ≡ value_of ⦃e = e⦄ [] j series ++ (if e.beq k j then x ∷ [] else [])
  observed_in_memory j k x series =
      value_of-insert ⦃e = e⦄ [] j k (value_of ⦃e = e⦄ [] k series ++ x ∷ []) series
      ∙ ground (arith, e.beq_iff k j, append-nil (value_of ⦃e = e⦄ [] j series))

  abbrev histograms_in_memory : Histograms K ℕ e
  histograms_in_memory = record {
    Series = Dict K (List ℕ);
    observed = value_of ⦃e = e⦄ [];
    labels = label_in ⦃e = e⦄ [];
    observe = λ k x series. insert ⦃e = e⦄ k (value_of ⦃e = e⦄ [] k series ++ x ∷ []) series;
    observed-labels = value_of-label_in ⦃e = e⦄ [];
    observed-observe = observed_in_memory;
  }

abbrev client : Client ℕ
client = record {
  requests = counters_in_memory pair_eq;
  errors = counters_in_memory pair_eq;
  durations = histograms_in_memory pair_eq;
}

abbrev same : String → String
same s = s

abbrev no_metrics : HttpMetrics client
no_metrics = record {
  http_requests_total = [];
  http_request_errors_total = [];
  http_request_duration_seconds = [];
}

abbrev get_health : Request
get_health = record {
  method = "GET";
  route = some (record { path_format = some ""; path = some "/health" });
  url_path = "/health/";
}

-- A response, a refusal, and an exception.
abbrev health_checks : Served ℕ
health_checks =
    (get_health, responds 200, 5) ∷ (get_health, responds 503, 9) ∷ (get_health, raises, 7) ∷ []

serve-counts_example :
    (client.requests.value
        (("GET", "/health"), 503)
        (serve client same health_checks (
          initialize_http_metric_series client same
            ((("GET", "/health"), 200) ∷ [])
            []
            no_metrics)).http_requests_total
      ≡ 0 + occurrences (("GET", "/health"), 503) (request_labels same health_checks))
    × (client.errors.value
          (("GET", "/health"), unhandled_exception)
          (serve client same health_checks (
            initialize_http_metric_series client same
              ((("GET", "/health"), 200) ∷ [])
              []
              no_metrics)).http_request_errors_total
        ≡ 0
          + occurrences (("GET", "/health"), unhandled_exception) (error_labels same health_checks))
    × (client.durations.observed
          ("GET", "/health")
          (serve client same health_checks (
            initialize_http_metric_series client same
              ((("GET", "/health"), 200) ∷ [])
              []
              no_metrics)).http_request_duration_seconds
        ≡ durations_at same ("GET", "/health") health_checks)
serve-counts_example =
    serve-counts client same ((("GET", "/health"), 200) ∷ []) [] health_checks no_metrics
      (("GET", "/health"), 503) (("GET", "/health"), unhandled_exception) ("GET", "/health")

abbrev after_checks : HttpMetrics client
after_checks = serve client same health_checks no_metrics

metrics_of_checks :
    (after_checks.http_requests_total
      ≡ ((("GET", "/health"), 200), 1)
        ∷ ((("GET", "/health"), 503), 1)
        ∷ ((("GET", "/health"), 500), 1)
        ∷ [])
    × (after_checks.http_request_errors_total
        ≡ ((("GET", "/health"), service_unavailable), 1)
          ∷ ((("GET", "/health"), unhandled_exception), 1)
          ∷ [])
    × (after_checks.http_request_duration_seconds ≡ (("GET", "/health"), 5 ∷ 9 ∷ 7 ∷ []) ∷ [])
unfolding prometheus_http_middleware resolve_endpoint_label resolve_error_type
metrics_of_checks = (refl, refl, refl)
