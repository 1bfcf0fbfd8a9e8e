-- ===== src/Analytics/Summary.antt =====
-- The summary counts the recorded events of the window.
use Prim.Native.Char.{code}
use smart_warehouse_platform.Prelude.{
  String, ℕ, ◌+◌, ℤ, ◌-ℤ◌, floor_div, Bool, true, false, ◌&&◌, List, [], ◌∷◌, All, Bool-cases, inl,
  inr, ◌⊎◌, ◌≡◌, ◌≢◌, refl, sym, ap, ◌∙◌, arith,
}
use smart_warehouse_platform.Prelude.Eq.{◌==◌, string_eq, int_eq, beq_of_ne}
use smart_warehouse_platform.Repository.Schema.{HistoryRow, Tables}
use smart_warehouse_platform.Analytics.{
  lower, type_key, up_to, history_of, point_of, traffic_of, hours_of_days, build_hourly_traffic,
}
use smart_warehouse_platform.Analytics.Counts.{one_if, hits, is_counted}
use smart_warehouse_platform.Analytics.Sums.{hits_in, series_of-hits_in}

-- The outcomes that `apply_state_change` is called with.
abbrev pub HasOutcome : HistoryRow → Type 0
HasOutcome row = (row.outcome ≡ "APPLIED") ⊎ ((row.outcome ≡ "STALE") ⊎ (row.outcome ≡ "DLQ"))

-- How many rows of the window pass a test.
abbrev pub rows_in : ℤ → ℤ → (HistoryRow → Bool) → List HistoryRow → ℕ
rows_in lookback_start now test [] = 0
rows_in lookback_start now test (row ∷ rows) =
    one_if (is_counted lookback_start now row && test row) + rows_in lookback_start now test rows

abbrev second : String → ℕ
second (String.◌∷◌ c (String.◌∷◌ d s)) = code d
second _ = 0

second_of : (event_type key : String) → type_key event_type ≡ key → 0x79 ≡ second key
second_of event_type key e = ap second e

-- No type's key is one whose second letter is not a y.
type_key-other :
    (event_type key : String) → second key ≢ 0x79 → (type_key event_type == key) ≡ false
type_key-other event_type key h =
    beq_of_ne (type_key event_type) key (λ e. h (sym (second_of event_type key e)))

-- A row is counted once under "total", and once under its outcome.
abbrev IsCountedBy : String → (HistoryRow → Bool) → HistoryRow → Type 0
IsCountedBy key test row = hits key row ≡ one_if (test row)

total-IsCountedBy : (row : HistoryRow) → HasOutcome row → IsCountedBy "total" (λ row. true) row
unfolding lower
total-IsCountedBy row h =
    rw (type_key-other row.event_type "total" (ground arith))
      (elim h [ inl e ↦ rw e refl | inr (inl e) ↦ rw e refl | inr (inr e) ↦ rw e refl ])

applied-IsCountedBy :
    (row : HistoryRow)
    → HasOutcome row
    → IsCountedBy "applied" (λ row. row.outcome == "APPLIED") row
unfolding lower
applied-IsCountedBy row h =
    rw (type_key-other row.event_type "applied" (ground arith))
      (elim h [ inl e ↦ rw e refl | inr (inl e) ↦ rw e refl | inr (inr e) ↦ rw e refl ])

dlq-IsCountedBy :
    (row : HistoryRow) → HasOutcome row → IsCountedBy "dlq" (λ row. row.outcome == "DLQ") row
unfolding lower
dlq-IsCountedBy row h =
    rw (type_key-other row.event_type "dlq" (ground arith))
      (elim h [ inl e ↦ rw e refl | inr (inl e) ↦ rw e refl | inr (inr e) ↦ rw e refl ])

hits_in-rows_in :
    (lookback_start now : ℤ) (key : String) (test : HistoryRow → Bool) (rows : List HistoryRow)
    → ((row : HistoryRow) → HasOutcome row → IsCountedBy key test row)
    → All HasOutcome rows
    → hits_in lookback_start now key rows ≡ rows_in lookback_start now test rows
hits_in-rows_in lookback_start now key test [] by h = refl
hits_in-rows_in lookback_start now key test (row ∷ rows) by h =
    elim (Bool-cases (is_counted lookback_start now row)) [
      | inl e ↦
          rw e (ground (arith, by row h.0, hits_in-rows_in lookback_start now key test rows by h.1))
      | inr e ↦ rw e (ground (arith, hits_in-rows_in lookback_start now key test rows by h.1))
    ]

-- The rows that `build_hourly_traffic` reads.
abbrev pub rows_read : Tables → ℤ → ℤ → List HistoryRow
rows_read t now days =
    history_of t (up_to (floor_div (now -ℤ hours_of_days days) 24) (floor_div now 24))

-- If every row that is read has the outcome APPLIED, STALE or DLQ, the summary counts the rows whose
-- time is not null and of an hour between the start of the window and the current hour, those among
-- them that were applied, and those that went to the dead letter topic.
pub build_hourly_traffic-summary :
    (t : Tables) (now days : ℤ)
    → All HasOutcome (rows_read t now days)
    → ((build_hourly_traffic t now days).total_events
        ≡ rows_in (now -ℤ hours_of_days days) now (λ row. true) (rows_read t now days))
      × ((build_hourly_traffic t now days).applied_events
          ≡ rows_in
              (now -ℤ hours_of_days days)
              now
              (λ row. row.outcome == "APPLIED")
              (rows_read t now days))
      × ((build_hourly_traffic t now days).dlq_events
          ≡ rows_in
              (now -ℤ hours_of_days days)
              now
              (λ row. row.outcome == "DLQ")
              (rows_read t now days))
unfolding build_hourly_traffic traffic_of point_of
build_hourly_traffic-summary t now days h =
    let from = now -ℤ hours_of_days days in
    let rows = rows_read t now days in
    (
      series_of-hits_in from now "total" rows (λ point. point.total_events) (λ hour bucket. refl)
          ∙ hits_in-rows_in from now "total" (λ row. true) rows total-IsCountedBy h,
      series_of-hits_in from now "applied" rows (λ point. point.applied_events)
            (λ hour bucket. refl)
          ∙ hits_in-rows_in from now "applied" (λ row. row.outcome == "APPLIED") rows
              applied-IsCountedBy h,
      series_of-hits_in from now "dlq" rows (λ point. point.dlq_events) (λ hour bucket. refl)
          ∙ hits_in-rows_in from now "dlq" (λ row. row.outcome == "DLQ") rows dlq-IsCountedBy h,
    )
