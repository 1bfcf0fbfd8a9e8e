-- ===== src/Observability/Counted.antt =====
-- What the metrics of the middleware count.
use smart_warehouse_platform.Prelude.{
  String, ℕ, ◌+◌, leb, Bool, true, false, List, [], ◌∷◌, ◌++◌, ◌≡◌, refl, ap, sym, ◌∙◌, arith,
  if◌then◌else◌,
}
use smart_warehouse_platform.Prelude.Eq.{Eq, ◌==◌, string_eq, nat_eq}
use mathlib.Core.List.{append-nil, append_assoc}
use smart_warehouse_platform.Observability.{
  Place, ErrorType, unhandled_exception, HttpMetrics, Request, Outcome, responds, raises, Counters,
  Client, all_labels, pair_eq, initialize_http_metric_series, upper_all, places, place_of,
  resolve_error_type, prometheus_http_middleware, error_type_eq,
}

module _ {K S X : Type 0} (labels : K → S → S) (read : K → S → X) where
  -- What labels do not change.
  read-all_labels :
      ((j k : K) (s : S) → read j (labels k s) ≡ read j s)
      → (j : K) (ks : List K) (s : S) → read j (all_labels labels ks s) ≡ read j s
  read-all_labels kept j [] s = refl
  read-all_labels kept j (k ∷ ks) s = read-all_labels kept j ks (labels k s) ∙ kept j k s

module _ {K : Type 0} ⦃e : Eq K⦄ where
  -- How often a key occurs.
  abbrev pub occurrences : K → List K → ℕ
  occurrences j [] = 0
  occurrences j (k ∷ ks) = (if k == j then 1 else 0) + occurrences j ks

  occurrences-append :
      (j : K) (ks js : List K) → occurrences j (ks ++ js) ≡ occurrences j ks + occurrences j js
  occurrences-append j [] js = ground arith
  occurrences-append j (k ∷ ks) js = ground (arith, occurrences-append j ks js)

  value-inc_if :
      (counters : Counters K e) (j k : K) (s : counters.Series) (b : Bool)
      → counters.value j (if b then counters.inc k s else s)
        ≡ counters.value j s + occurrences j (if b then k ∷ [] else [])
  value-inc_if counters j k s true = rw (counters.value-inc j k s) (ground arith)
  value-inc_if counters j k s false = ground arith

append_if :
    {X : Type 0} (b : Bool) (x : X) (ys xs : List X)
    → xs ++ (if b then x ∷ ys else ys) ≡ (xs ++ (if b then x ∷ [] else [])) ++ ys
append_if true x ys xs = sym (append_assoc xs (x ∷ []) ys)
append_if false x ys xs = ap (λ zs. zs ++ ys) (sym (append-nil xs))

-- Requests, what `call_next` does with them, and how long it takes.
abbrev pub Served : Type 0 → Type 0
Served Duration = List (Request × Outcome × Duration)

-- An exception counts as a 500.
abbrev status_of : Outcome → ℕ
status_of (responds status_code) = status_code
status_of raises = 500

-- An error is an exception, or a status of at least 400.
abbrev errors_of : Place → Outcome → List (Place × ErrorType)
errors_of place raises = (place, unhandled_exception) ∷ []
errors_of place (responds status_code) =
    if leb 400 status_code then (place, resolve_error_type status_code) ∷ [] else []

module _ {Duration : Type 0} (upper : String → String) where
  -- The place and the status of each request.
  abbrev pub request_labels : Served Duration → List (Place × ℕ)
  request_labels [] = []
  request_labels ((request, outcome, duration) ∷ served) =
      (place_of upper request, status_of outcome) ∷ request_labels served

  -- The place and the type of each error.
  abbrev pub error_labels : Served Duration → List (Place × ErrorType)
  error_labels [] = []
  error_labels ((request, outcome, duration) ∷ served) =
      errors_of (place_of upper request) outcome ++ error_labels served

  -- The durations of the requests of a place, in order.
  abbrev pub durations_at : Place → Served Duration → List Duration
  durations_at place [] = []
  durations_at place ((request, outcome, duration) ∷ served) =
      let rest = durations_at place served in
      if place_of upper request == place then duration ∷ rest else rest

module _ {Duration : Type 0} (client : Client Duration) (upper : String → String) where
  -- Requests that the middleware serves one after the other.
  abbrev pub serve : Served Duration → HttpMetrics client → HttpMetrics client
  serve [] metrics = metrics
  serve ((request, outcome, duration) ∷ served) metrics =
      serve served ((prometheus_http_middleware client upper request outcome duration metrics).1)

  abbrev after : Request → Outcome → Duration → HttpMetrics client → HttpMetrics client
  after request outcome duration metrics =
      (prometheus_http_middleware client upper request outcome duration metrics).1

  middleware-requests :
      (k : Place × ℕ) (request : Request) (outcome : Outcome) (duration : Duration)
      (metrics : HttpMetrics client)
      → client.requests.value k (after request outcome duration metrics).http_requests_total
        ≡ client.requests.value k metrics.http_requests_total
          + occurrences k ((place_of upper request, status_of outcome) ∷ [])
  unfolding prometheus_http_middleware
  middleware-requests k request (responds status_code) duration metrics =
      value-inc_if client.requests k (place_of upper request, status_code)
        metrics.http_requests_total true
  middleware-requests k request raises duration metrics =
      value-inc_if client.requests k (place_of upper request, 500) metrics.http_requests_total true

  middleware-errors :
      (k : Place × ErrorType) (request : Request) (outcome : Outcome) (duration : Duration)
      (metrics : HttpMetrics client)
      → client.errors.value k (after request outcome duration metrics).http_request_errors_total
        ≡ client.errors.value k metrics.http_request_errors_total
          + occurrences k (errors_of (place_of upper request) outcome)
  unfolding prometheus_http_middleware
  middleware-errors k request (responds status_code) duration metrics =
      value-inc_if client.errors k (place_of upper request, resolve_error_type status_code)
        metrics.http_request_errors_total (leb 400 status_code)
  middleware-errors k request raises duration metrics =
      value-inc_if client.errors k (place_of upper request, unhandled_exception)
        metrics.http_request_errors_total true

  middleware-durations :
      (place : Place) (request : Request) (outcome : Outcome) (duration : Duration)
      (metrics : HttpMetrics client)
      → client.durations.observed place
          (after request outcome duration metrics).http_request_duration_seconds
        ≡ client.durations.observed place metrics.http_request_duration_seconds
          ++ (if place_of upper request == place then duration ∷ [] else [])
  unfolding prometheus_http_middleware
  middleware-durations place request (responds status_code) duration metrics =
      client.durations.observed-observe place (place_of upper request) duration
        metrics.http_request_duration_seconds
  middleware-durations place request raises duration metrics =
      client.durations.observed-observe place (place_of upper request) duration
        metrics.http_request_duration_seconds

  serve-requests :
      (k : Place × ℕ) (served : Served Duration) (metrics : HttpMetrics client)
      → client.requests.value k (serve served metrics).http_requests_total
        ≡ client.requests.value k metrics.http_requests_total
          + occurrences k (request_labels upper served)
  serve-requests k [] metrics = ground arith
  serve-requests k ((request, outcome, duration) ∷ served) metrics = omega (
    arith,
    serve-requests k served (after request outcome duration metrics),
    middleware-requests k request outcome duration metrics,
    occurrences-append k ((place_of upper request, status_of outcome) ∷ [])
        (request_labels upper served),
  )

  serve-errors :
      (k : Place × ErrorType) (served : Served Duration) (metrics : HttpMetrics client)
      → client.errors.value k (serve served metrics).http_request_errors_total
        ≡ client.errors.value k metrics.http_request_errors_total
          + occurrences k (error_labels upper served)
  serve-errors k [] metrics = ground arith
  serve-errors k ((request, outcome, duration) ∷ served) metrics = omega (
    arith,
    serve-errors k served (after request outcome duration metrics),
    middleware-errors k request outcome duration metrics,
    occurrences-append k (errors_of (place_of upper request) outcome) (error_labels upper served),
  )

  serve-durations :
      (place : Place) (served : Served Duration) (metrics : HttpMetrics client)
      → client.durations.observed place (serve served metrics).http_request_duration_seconds
        ≡ client.durations.observed place metrics.http_request_duration_seconds
          ++ durations_at upper place served
  serve-durations place [] metrics = sym (append-nil _)
  serve-durations place ((request, outcome, duration) ∷ served) metrics =
      serve-durations place served (after request outcome duration metrics)
      ∙ ap (λ xs. xs ++ durations_at upper place served)
          (middleware-durations place request outcome duration metrics)
      ∙ sym
          (append_if (place_of upper request == place) duration (durations_at upper place served) _)

  -- After the initialization of the series and any requests, a series has its value from before and
  -- the number of the requests with its labels, of the errors with its labels, or the durations of
  -- the requests of its place in order.
  pub serve-counts :
      (requests : List (Place × ℕ)) (errors : List (Place × ErrorType)) (served : Served Duration)
      (metrics : HttpMetrics client) (k : Place × ℕ) (j : Place × ErrorType) (place : Place)
      → (client.requests.value k
            (serve served (
              initialize_http_metric_series client upper requests errors
                metrics)).http_requests_total
          ≡ client.requests.value k metrics.http_requests_total
            + occurrences k (request_labels upper served))
        × (client.errors.value j
              (serve served (
                initialize_http_metric_series client upper requests errors
                  metrics)).http_request_errors_total
            ≡ client.errors.value j metrics.http_request_errors_total
              + occurrences j (error_labels upper served))
        × (client.durations.observed place
              (serve served (
                initialize_http_metric_series client upper requests errors
                  metrics)).http_request_duration_seconds
            ≡ client.durations.observed place metrics.http_request_duration_seconds
              ++ durations_at upper place served)
  unfolding initialize_http_metric_series
  serve-counts requests errors served metrics k j place = (
    rw
        (serve-requests k served
          (initialize_http_metric_series client upper requests errors metrics))
        (ap (λ n. n + occurrences k (request_labels upper served))
          (read-all_labels client.requests.labels client.requests.value client.requests.value-labels
            k (upper_all upper requests) _)),
    rw (serve-errors j served (initialize_http_metric_series client upper requests errors metrics))
        (ap (λ n. n + occurrences j (error_labels upper served))
          (read-all_labels client.errors.labels client.errors.value client.errors.value-labels j
            (upper_all upper errors) _)),
    rw
        (serve-durations place served
          (initialize_http_metric_series client upper requests errors metrics))
        (ap (λ xs. xs ++ durations_at upper place served)
          (read-all_labels client.durations.labels client.durations.observed
            client.durations.observed-labels place
            (places (upper_all upper requests) ++ places (upper_all upper errors)) _)),
  )
