-- ===== src/Analytics/Counts.antt =====
-- The count of a bucket under a key, from the rows that were added.
use smart_warehouse_platform.Prelude.{
  String, ℕ, suc, ◌+◌, ℤ, pos, ltb_ℤ, Bool, false, Option, none, some, not, ◌&&◌, ◌||◌, List, [],
  ◌∷◌, Dict, insert, lookup-insert, Bool-cases, inl, inr, ◌≡◌, refl, arith, if◌then◌else◌,
}
use smart_warehouse_platform.Prelude.Eq.{◌==◌, string_eq, int_eq, eq_of_beq}
use smart_warehouse_platform.Repository.Schema.{HistoryRow}
use smart_warehouse_platform.Analytics.{
  lower, Counter, count_of, increment, bucket_at, hour_of_ms, type_key, count_row, add_at,
  add_timed, add_row, add_rows,
}

abbrev pub one_if : Bool → ℕ
one_if b = if b then 1 else 0

-- How often a row is counted under a key in its bucket.
abbrev pub hits : String → HistoryRow → ℕ
hits key row =
    one_if ("total" == key)
    + one_if (lower row.outcome == key)
    + one_if (type_key row.event_type == key)

-- The hour of a row's time, if it has one.
abbrev pub hour_at : Option ℤ → ℤ
hour_at none = pos 0
hour_at (some ms) = hour_of_ms ms

abbrev pub row_hour : HistoryRow → ℤ
row_hour row = hour_at row.occurred_at_ms

-- A time that is not null, of an hour of the window.
abbrev pub is_within : ℤ → ℤ → Option ℤ → Bool
is_within lookback_start now none = false
is_within lookback_start now (some ms) =
    let hour = hour_of_ms ms in not (ltb_ℤ hour lookback_start || ltb_ℤ now hour)

-- The row is in the window.
abbrev pub is_counted : ℤ → ℤ → HistoryRow → Bool
is_counted lookback_start now row = is_within lookback_start now row.occurred_at_ms

-- The hits of the window's rows of an hour.
abbrev pub hits_at : ℤ → ℤ → String → ℤ → List HistoryRow → ℕ
hits_at lookback_start now key hour [] = 0
hits_at lookback_start now key hour (row ∷ rows) =
    (if is_counted lookback_start now row && row_hour row == hour then hits key row else 0)
    + hits_at lookback_start now key hour rows

count_of-increment :
    (key j : String) (bucket : Counter)
    → count_of key (increment j bucket) ≡ one_if (j == key) + count_of key bucket
count_of-increment key j bucket =
    ground (arith, lookup-insert j key (suc (count_of j bucket)) bucket, string_eq.beq_iff j key)

added : (a b c d : ℕ) → c + (b + (a + d)) ≡ (a + b + c) + d
added a b c d = ground arith

count_of-count_row :
    (key : String) (row : HistoryRow) (bucket : Counter)
    → count_of key (count_row row bucket) ≡ hits key row + count_of key bucket
unfolding count_row
count_of-count_row key row bucket =
    let first = increment "total" bucket in
    let second = increment (lower row.outcome) first in
    rw (count_of-increment key (type_key row.event_type) second) (
      rw (count_of-increment key (lower row.outcome) first) (
        rw (count_of-increment key "total" bucket) (
          added (one_if ("total" == key)) (one_if (lower row.outcome == key))
            (one_if (type_key row.event_type == key)) (count_of key bucket))))

bucket_at-insert :
    (hour h : ℤ) (bucket : Counter) (buckets : Dict ℤ Counter)
    → bucket_at hour (insert h bucket buckets)
      ≡ (if h == hour then bucket else bucket_at hour buckets)
bucket_at-insert hour h bucket buckets = ground (arith, lookup-insert h hour bucket buckets)

module _ (lookback_start now : ℤ) (row : HistoryRow) (buckets : Dict ℤ Counter) where
  abbrev added_at : ℤ → Dict ℤ Counter
  added_at hour = insert hour (count_row row (bucket_at hour buckets)) buckets

  add_at-not :
      (hour : ℤ)
      → add_at lookback_start now row hour buckets
        ≡ (if not (ltb_ℤ hour lookback_start || ltb_ℤ now hour) then added_at hour else buckets)
  unfolding add_at
  add_at-not hour = elim (Bool-cases (ltb_ℤ hour lookback_start || ltb_ℤ now hour)) [
    | inl e ↦ rw e refl
    | inr e ↦ rw e refl
  ]

  add_timed_lem :
      (ms : Option ℤ)
      → add_timed lookback_start now row ms buckets
        ≡ (if is_within lookback_start now ms then added_at (hour_at ms) else buckets)
  add_timed_lem none = refl
  add_timed_lem (some ms) = add_at-not (hour_of_ms ms)

  -- A row of the window is counted at its hour, and no other row.
  pub add_row_lem :
      add_row lookback_start now row buckets
      ≡ (if is_counted lookback_start now row then added_at (row_hour row) else buckets)
  unfolding add_row
  add_row_lem = add_timed_lem row.occurred_at_ms

module _ (lookback_start now : ℤ) (key : String) (hour : ℤ) where
  count_of-add_row :
      (row : HistoryRow) (buckets : Dict ℤ Counter)
      → count_of key (bucket_at hour (add_row lookback_start now row buckets))
        ≡ (if is_counted lookback_start now row && row_hour row == hour then hits key row else 0)
          + count_of key (bucket_at hour buckets)
  count_of-add_row row buckets =
      let h = row_hour row in
      rw (add_row_lem lookback_start now row buckets)
        (elim (Bool-cases (is_counted lookback_start now row)) [
          | inr e ↦ rw e (ground arith)
          | inl e ↦ rw e (
              rw (bucket_at-insert hour h (count_row row (bucket_at h buckets)) buckets)
                (elim (Bool-cases (h == hour)) [
                  | inr other ↦ rw other (ground arith)
                  | inl this ↦ rw this (
                      rw (count_of-count_row key row (bucket_at h buckets))
                        (rw (eq_of_beq h hour this) refl))
                ]))
        ])

  pub count_of-add_rows :
      (rows : List HistoryRow) (buckets : Dict ℤ Counter)
      → count_of key (bucket_at hour (add_rows lookback_start now rows buckets))
        ≡ hits_at lookback_start now key hour rows + count_of key (bucket_at hour buckets)
  unfolding add_rows
  count_of-add_rows [] buckets = ground arith
  count_of-add_rows (row ∷ rows) buckets = ground (
    arith,
    count_of-add_rows rows (add_row lookback_start now row buckets),
    count_of-add_row row buckets,
  )
