-- ===== src/Analytics.antt =====
-- consumer_service/app/application/traffic_analytics.py and the route `traffic_analytics` of
-- consumer_service/app/api/routes.py. A time that is cut to its hour is the number of hours since
-- the epoch, a date the number of days.
pub mod Counts
pub mod Covered
pub mod Sums
pub mod Summary
use Prim.Native.Char.{Char, code}
use smart_warehouse_platform.Prelude.{
  String, ℕ, zero, suc, ◌+◌, ◌-◌, ◌*◌, ℤ, pos, negsuc, pos_part, ◌+ℤ◌, ◌-ℤ◌, ltb_ℤ, floor_div,
  min_ℤ, leb, nat_beq, Bool, true, false, ◌&&◌, ◌||◌, List, [], ◌∷◌, ◌++◌, map, Option, none, some,
  Dict, keys, lookup, insert, if◌then◌else◌,
}
use smart_warehouse_platform.Prelude.Eq.{string_eq, int_eq}
use smart_warehouse_platform.Repository.Schema.{HistoryRow, Tables}
use smart_warehouse_platform.Repository.{get_event_history_for_date}

-- `s.lower()`, of the letters A to Z; the outcomes that are stored have no others.
abbrev letter_at : Char → ℕ → String → Char
letter_at c n String.[] = c
letter_at c zero (String.◌∷◌ d s) = d
letter_at c (suc n) (String.◌∷◌ d s) = letter_at c n s

unfoldable pub lower : String → String
lower String.[] = String.[]
lower (String.◌∷◌ c s) =
    let rest = lower s in
    if leb 0x41 (code c) && leb (code c) 0x5a
    then String.◌∷◌ (letter_at c (code c - 0x41) "abcdefghijklmnopqrstuvwxyz") rest
    else String.◌∷◌ c rest

-- The rest of a text after a prefix, if it starts with it.
unfoldable pub strip_prefix : String → String → Option String
strip_prefix String.[] s = some s
strip_prefix (String.◌∷◌ c prefix) String.[] = none
strip_prefix (String.◌∷◌ c prefix) (String.◌∷◌ d s) =
    let rest = strip_prefix prefix s in if nat_beq (code c) (code d) then rest else none

abbrev pub Counter : Type 0
Counter = Dict String ℕ

abbrev pub or_none : Option ℕ → ℕ
or_none none = 0
or_none (some n) = n

-- `bucket.get(key, 0)`
abbrev pub count_of : String → Counter → ℕ
count_of key bucket = or_none (lookup key bucket)

-- `bucket[key] += 1`
abbrev pub increment : String → Counter → Counter
increment key bucket = insert key (suc (count_of key bucket)) bucket

abbrev pub or_empty : Option Counter → Counter
or_empty none = []
or_empty (some bucket) = bucket

-- `buckets.get(bucket_time, Counter())`
abbrev pub bucket_at : ℤ → Dict ℤ Counter → Counter
bucket_at hour buckets = or_empty (lookup hour buckets)

abbrev pub hour_of_ms : ℤ → ℤ
hour_of_ms ms = floor_div ms 3_600_000

-- `f"type:{event_type}"`
abbrev prepend : String → String → String
prepend String.[] s = s
prepend (String.◌∷◌ c prefix) s = String.◌∷◌ c (prepend prefix s)

abbrev pub type_key : String → String
type_key event_type = prepend "type:" event_type

-- What a row adds to its bucket.
unfoldable pub count_row : HistoryRow → Counter → Counter
unfolding lower
count_row row bucket =
    increment (type_key row.event_type) (increment (lower row.outcome) (increment "total" bucket))

-- The body of the loop over the rows, once the hour of the row is known.
unfoldable pub add_at : ℤ → ℤ → HistoryRow → ℤ → Dict ℤ Counter → Dict ℤ Counter
unfolding count_row
add_at lookback_start now row hour buckets =
    if ltb_ℤ hour lookback_start || ltb_ℤ now hour
    then buckets
    else insert hour (count_row row (bucket_at hour buckets)) buckets

-- The body of the loop over the rows: a row whose time is null is skipped.
abbrev pub add_timed : ℤ → ℤ → HistoryRow → Option ℤ → Dict ℤ Counter → Dict ℤ Counter
add_timed lookback_start now row none buckets = buckets
add_timed lookback_start now row (some ms) buckets =
    add_at lookback_start now row (hour_of_ms ms) buckets

unfoldable pub add_row : ℤ → ℤ → HistoryRow → Dict ℤ Counter → Dict ℤ Counter
unfolding add_at
add_row lookback_start now row buckets = add_timed lookback_start now row row.occurred_at_ms buckets

unfoldable pub add_rows : ℤ → ℤ → List HistoryRow → Dict ℤ Counter → Dict ℤ Counter
unfolding add_row
add_rows lookback_start now [] buckets = buckets
add_rows lookback_start now (row ∷ rows) buckets =
    add_rows lookback_start now rows (add_row lookback_start now row buckets)

-- So many steps of a loop that counts up from a number.
abbrev pub count_up : ℕ → ℤ → List ℤ
count_up zero from = []
count_up (suc n) from = from ∷ count_up n (from +ℤ pos 1)

-- The values of `cursor` in `while cursor <= last: …; cursor += 1`.
unfoldable pub up_to : ℤ → ℤ → List ℤ
up_to first last = count_up (pos_part (last +ℤ pos 1 -ℤ first)) first

-- The rows of the dates, in the order of the loop.
unfoldable pub history_of : Tables → List ℤ → List HistoryRow
history_of t [] = []
history_of t (date ∷ dates) = get_event_history_for_date t date ++ history_of t dates

-- `min(buckets)`, or an hour before now.
abbrev pub min_of : ℤ → List ℤ → ℤ
min_of best [] = best
min_of best (hour ∷ hours) = min_of (min_ℤ best hour) hours

abbrev pub first_hour : ℤ → List ℤ → ℤ
first_hour now [] = now -ℤ pos 1
first_hour now (hour ∷ hours) = min_of hour hours

pub record TrafficPoint : Type 0 where
  pub timestamp : ℤ
  pub total_events : ℕ
  pub applied_events : ℕ
  pub dlq_events : ℕ
  pub stale_events : ℕ
  pub duplicate_events : ℕ
  pub by_type : Dict String ℕ

-- The dict of the items whose key has the prefix. The keys of a bucket are distinct, so they are so
-- without it.
unfoldable pub types_of : Counter → Dict String ℕ
unfolding strip_prefix
types_of [] = []
types_of ((key, n) ∷ bucket) =
    let rest = types_of bucket in
    elim (strip_prefix "type:" key) [ none ↦ rest | some event_type ↦ (event_type, n) ∷ rest ]

unfoldable pub point_of : ℤ → Counter → TrafficPoint
unfolding types_of
point_of hour bucket = record {
  timestamp = hour;
  total_events = count_of "total" bucket;
  applied_events = count_of "applied" bucket;
  dlq_events = count_of "dlq" bucket;
  stale_events = count_of "stale" bucket;
  duplicate_events = count_of "duplicate" bucket;
  by_type = types_of bucket;
}

-- `sum(point.… for point in series)`
abbrev pub sum_points : (TrafficPoint → ℕ) → List TrafficPoint → ℕ
sum_points f [] = 0
sum_points f (point ∷ series) = f point + sum_points f series

pub record HourlyTraffic : Type 0 where
  pub from_hour : ℤ
  pub to_hour : ℤ
  pub series : List TrafficPoint
  pub days : ℤ
  pub total_events : ℕ
  pub applied_events : ℕ
  pub dlq_events : ℕ

abbrev pub series_of : Dict ℤ Counter → List ℤ → List TrafficPoint
series_of buckets [] = []
series_of buckets (hour ∷ hours) = point_of hour (bucket_at hour buckets) ∷ series_of buckets hours

unfoldable pub traffic_of : ℤ → ℤ → Dict ℤ Counter → HourlyTraffic
unfolding point_of up_to
traffic_of days now buckets =
    let start = first_hour now (keys buckets) in
    let series = series_of buckets (up_to start now) in
    record {
      from_hour = start;
      to_hour = now;
      series = series;
      days = days;
      total_events = sum_points (λ point. point.total_events) series;
      applied_events = sum_points (λ point. point.applied_events) series;
      dlq_events = sum_points (λ point. point.dlq_events) series;
    }

-- `timedelta(days=days)`, in hours.
abbrev pub hours_of_days : ℤ → ℤ
hours_of_days (pos n) = pos (24 * n)
hours_of_days (negsuc n) = negsuc (24 * n + 23)

-- `build_hourly_traffic`, with the hour that the clock shows.
unfoldable pub build_hourly_traffic : Tables → ℤ → ℤ → HourlyTraffic
unfolding add_rows history_of traffic_of up_to
build_hourly_traffic t now days =
    let lookback_start = now -ℤ hours_of_days days in
    let dates = up_to (floor_div lookback_start 24) (floor_div now 24) in
    traffic_of days now (add_rows lookback_start now (history_of t dates) [])

-- The route: `none` is the 400.
unfoldable pub traffic_analytics : Tables → ℤ → ℤ → Option HourlyTraffic
unfolding build_hourly_traffic
traffic_analytics t now days =
    if ltb_ℤ days (pos 1) || ltb_ℤ (pos 30) days
    then none
    else some (build_hourly_traffic t now days)
