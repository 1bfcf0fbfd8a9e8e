-- ===== src/Observability.antt =====
-- common/observability.py: the labels of a request and the middleware that counts it. The metrics of
-- prometheus_client are an interface. Labels that are printed numbers are numbers, and the label of
-- the service, one in a process, is left out.
use smart_warehouse_platform.Prelude.{
  String, ℕ, ◌+◌, leb, nat_beq, Bool, true, false, ◌&&◌, List, [], ◌∷◌, Option, none, some, ◌++◌,
  ◌≡◌, ◌↔◌, refl, arith, if◌then◌else◌,
}
use smart_warehouse_platform.Prelude.Eq.{Eq, ◌==◌, string_eq, nat_eq}
pub mod Counted

pub data ErrorType : Type 0 where
  validation_error : ErrorType
  service_unavailable : ErrorType
  unhandled_exception : ErrorType
  http : ℕ → ErrorType

abbrev pub error_type_beq : ErrorType → ErrorType → Bool
error_type_beq validation_error validation_error = true
error_type_beq service_unavailable service_unavailable = true
error_type_beq unhandled_exception unhandled_exception = true
error_type_beq (http m) (http n) = m == n
error_type_beq _ _ = false

pub error_type_beq_iff : (s t : ErrorType) → (error_type_beq s t ≡ true) ↔ (s ≡ t)
error_type_beq_iff validation_error t = ground arith
error_type_beq_iff service_unavailable t = ground arith
error_type_beq_iff unhandled_exception t = ground arith
error_type_beq_iff (http m) t = ground (arith, nat_eq.beq_iff m)

instance abbrev pub error_type_eq : Eq ErrorType
error_type_eq = record { beq_iff = error_type_beq_iff; beq = error_type_beq }

module _ {A B : Type 0} ⦃a : Eq A⦄ ⦃b : Eq B⦄ where
  abbrev pub pair_beq : A × B → A × B → Bool
  pair_beq (x, y) (u, v) = (x == u) && (y == v)

  pub pair_beq_iff : (p q : A × B) → (pair_beq p q ≡ true) ↔ (p ≡ q)
  pair_beq_iff (x, y) (u, v) = ground (arith, a.beq_iff x u, b.beq_iff y v)

  instance abbrev pub pair_eq : Eq (A × B)
  pair_eq = record { beq_iff = pair_beq_iff; beq = pair_beq }

-- The method and the endpoint, and with the status or the type of the error.
abbrev pub Place : Type 0
Place = String × String

-- A counter of prometheus_client with labels of type `K`: a new series is at 0, and `inc` adds 1 to
-- the series of its labels.
pub record Counters (K : Type 0) (e : Eq K) : Type 1 where
  pub Series : Type 0
  pub value : K → Series → ℕ
  pub labels : K → Series → Series
  pub inc : K → Series → Series
  pub value-labels : (j k : K) (s : Series) → value j (labels k s) ≡ value j s
  pub value-inc :
      (j k : K) (s : Series) → value j (inc k s) ≡ value j s + (if e.beq k j then 1 else 0)

-- A histogram of prometheus_client, as the observations of each series.
pub record Histograms (K X : Type 0) (e : Eq K) : Type 1 where
  pub Series : Type 0
  pub observed : K → Series → List X
  pub labels : K → Series → Series
  pub observe : K → X → Series → Series
  pub observed-labels : (j k : K) (s : Series) → observed j (labels k s) ≡ observed j s
  pub observed-observe :
      (j k : K) (x : X) (s : Series)
      → observed j (observe k x s) ≡ observed j s ++ (if e.beq k j then x ∷ [] else [])

pub record Client (Duration : Type 0) : Type 1 where
  pub requests : Counters (Place × ℕ) pair_eq
  pub errors : Counters (Place × ErrorType) pair_eq
  pub durations : Histograms Place Duration pair_eq

pub record HttpMetrics {Duration : Type 0} (client : Client Duration) : Type 0 where
  pub http_requests_total : client.requests.Series
  pub http_request_errors_total : client.errors.Series
  pub http_request_duration_seconds : client.durations.Series

abbrev pub all_labels : {K S : Type 0} → (K → S → S) → List K → S → S
all_labels labels [] s = s
all_labels labels (k ∷ ks) s = all_labels labels ks (labels k s)

abbrev pub upper_all : {X : Type 0} → (String → String) → List (Place × X) → List (Place × X)
upper_all upper [] = []
upper_all upper (((method, endpoint), x) ∷ series) =
    ((upper method, endpoint), x) ∷ upper_all upper series

abbrev pub places : {X : Type 0} → List (Place × X) → List Place
places [] = []
places ((place, x) ∷ series) = place ∷ places series

module _ {Duration : Type 0} (client : Client Duration) where
  -- `upper` is Python's `str.upper`.
  unfoldable pub initialize_http_metric_series :
      (String → String)
      → List (Place × ℕ)
      → List (Place × ErrorType)
      → HttpMetrics client
      → HttpMetrics client
  initialize_http_metric_series upper request_series error_series metrics = record {
    http_requests_total =
        all_labels client.requests.labels (upper_all upper request_series)
          metrics.http_requests_total;
    http_request_errors_total =
        all_labels client.errors.labels (upper_all upper error_series)
          metrics.http_request_errors_total;
    http_request_duration_seconds =
        all_labels client.durations.labels
          (places (upper_all upper request_series) ++ places (upper_all upper error_series))
          metrics.http_request_duration_seconds;
  }

pub record Route : Type 0 where
  pub path_format : Option String
  pub path : Option String

pub record Request : Type 0 where
  pub method : String
  pub route : Option Route
  pub url_path : String

-- What `call_next` does: it returns a response with a status code, or raises.
pub data Outcome : Type 0 where
  responds : ℕ → Outcome
  raises : Outcome

-- `p or q`
abbrev text_or : Option String → Option String → Option String
text_or none q = q
text_or (some p) q = if p == "" then q else some p

abbrev path_or : String → Option String → String
path_or url_path none = url_path
path_or url_path (some path) = if path == "" then url_path else path

abbrev route_path : Option Route → Option String
route_path none = none
route_path (some route) = text_or route.path_format route.path

unfoldable pub resolve_endpoint_label : Request → String
resolve_endpoint_label request = path_or request.url_path (route_path request.route)

unfoldable pub resolve_error_type : ℕ → ErrorType
resolve_error_type status_code =
    if nat_beq status_code 422
    then validation_error
    else if nat_beq status_code 503
    then service_unavailable
    else http status_code

module _ (upper : String → String) where
  abbrev pub place_of : Request → Place
  place_of request = (upper request.method, resolve_endpoint_label request)

module _ {Duration : Type 0} (client : Client Duration) (upper : String → String) where
  -- The middleware around `call_next`, whose outcome it hands on.
  unfoldable pub prometheus_http_middleware :
      Request → Outcome → Duration → HttpMetrics client → Outcome × HttpMetrics client
  prometheus_http_middleware request raises duration metrics = (
    raises,
    record {
      http_requests_total =
          client.requests.inc (place_of upper request, 500) metrics.http_requests_total;
      http_request_errors_total =
          client.errors.inc (place_of upper request, unhandled_exception)
            metrics.http_request_errors_total;
      http_request_duration_seconds =
          client.durations.observe (place_of upper request) duration
            metrics.http_request_duration_seconds;
    },
  )
  prometheus_http_middleware request (responds status_code) duration metrics = (
    responds status_code,
    record {
      http_requests_total =
          client.requests.inc (place_of upper request, status_code) metrics.http_requests_total;
      http_request_errors_total =
          if leb 400 status_code
          then client.errors.inc (place_of upper request, resolve_error_type status_code)
              metrics.http_request_errors_total
          else metrics.http_request_errors_total;
      http_request_duration_seconds =
          client.durations.observe (place_of upper request) duration
            metrics.http_request_duration_seconds;
    },
  )
