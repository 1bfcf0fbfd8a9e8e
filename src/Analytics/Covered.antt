-- ===== src/Analytics/Covered.antt =====
-- The hours of the series are those from the first bucket to now, each once.
use smart_warehouse_platform.Prelude.{
  ℕ, zero, suc, ◌+◌, ℤ, pos, pos_part, ◌+ℤ◌, ◌-ℤ◌, ◌≤ℤ◌, ◌<ℤ◌, +ℤ_parts, -ℤ_parts, min_ℤ, true,
  List, [], ◌∷◌, some, Dict, keys, lookup, insert, lookup-insert, All, Bool-cases, inl, inr, ◌≡◌,
  refl, arith,
}
use smart_warehouse_platform.Prelude.Eq.{◌==◌, string_eq, int_eq, beq_refl}
use smart_warehouse_platform.Repository.Schema.{HistoryRow}
use smart_warehouse_platform.Analytics.{
  Counter, count_row, bucket_at, add_row, add_rows, count_up, up_to, min_of, first_hour,
}
use smart_warehouse_platform.Analytics.Counts.{one_if, row_hour, is_counted, add_row_lem}

-- How often a number is in a list.
abbrev pub occurrences : ℤ → List ℤ → ℕ
occurrences x [] = 0
occurrences x (y ∷ ys) = one_if (x == y) + occurrences x ys

occurrences-below : (x from : ℤ) (n : ℕ) → x <ℤ from → occurrences x (count_up n from) ≡ 0
occurrences-below x from zero h = refl
occurrences-below x from (suc n) h =
    ground (arith, +ℤ_parts from (pos 1), occurrences-below x (from +ℤ pos 1) n)

occurrences-count_up :
    (x from : ℤ) (n : ℕ) → from ≤ℤ x → x <ℤ from +ℤ pos n → occurrences x (count_up n from) ≡ 1
occurrences-count_up x from zero h k = ground (arith, +ℤ_parts from (pos 0))
occurrences-count_up x from (suc n) h k = ground (
  arith,
  +ℤ_parts from (pos 1),
  +ℤ_parts from (pos (suc n)),
  +ℤ_parts (from +ℤ pos 1) (pos n),
  occurrences-below x (from +ℤ pos 1) n,
  occurrences-count_up x (from +ℤ pos 1) n,
)

pub occurrences-up_to :
    (x first last : ℤ) → first ≤ℤ x → x ≤ℤ last → occurrences x (up_to first last) ≡ 1
unfolding up_to
occurrences-up_to x first last h k =
    let steps = pos_part (last +ℤ pos 1 -ℤ first) in
    occurrences-count_up x first steps h (
      ground (
        arith,
        +ℤ_parts last (pos 1),
        -ℤ_parts (last +ℤ pos 1) first,
        +ℤ_parts first (pos steps),
        k,
        h,
      ))

min_of-below : (best : ℤ) (hours : List ℤ) → min_of best hours ≤ℤ best
min_of-below best [] = ground arith
min_of-below best (hour ∷ hours) = ground (arith, min_of-below (min_ℤ best hour) hours)

min_of-member :
    (hour best : ℤ) (bucket : Counter) (buckets : Dict ℤ Counter)
    → lookup hour buckets ≡ some bucket
    → min_of best (keys buckets) ≤ℤ hour
min_of-member hour best bucket [] h = ground arith
min_of-member hour best bucket ((k, b) ∷ buckets) h = ground (
  arith,
  min_of-below (min_ℤ best k) (keys buckets),
  int_eq.beq_iff k hour,
  h,
  min_of-member hour (min_ℤ best k) bucket buckets,
)

pub first_hour-below :
    (now hour : ℤ) (bucket : Counter) (buckets : Dict ℤ Counter)
    → lookup hour buckets ≡ some bucket
    → first_hour now (keys buckets) ≤ℤ hour
first_hour-below now hour bucket [] h = ground arith
first_hour-below now hour bucket ((k, b) ∷ buckets) h = ground (
  arith,
  min_of-below k (keys buckets),
  int_eq.beq_iff k hour,
  h,
  min_of-member hour k bucket buckets,
)

-- The hour has a bucket.
abbrev pub HasBucket : Dict ℤ Counter → ℤ → Type 0
HasBucket buckets hour = (bucket : Counter) × (lookup hour buckets ≡ some bucket)

HasBucket-insert :
    (hour h : ℤ) (bucket : Counter) (buckets : Dict ℤ Counter)
    → HasBucket buckets hour
    → HasBucket (insert h bucket buckets) hour
HasBucket-insert hour h bucket buckets has = elim (Bool-cases (h == hour)) [
  | inl e ↦ (bucket, rw (lookup-insert h hour bucket buckets) (rw e refl))
  | inr e ↦ (has.0, rw (lookup-insert h hour bucket buckets) (rw e has.1))
]

module _ (lookback_start now : ℤ) where
  HasBucket-add_row :
      (hour : ℤ) (row : HistoryRow) (buckets : Dict ℤ Counter)
      → HasBucket buckets hour
      → HasBucket (add_row lookback_start now row buckets) hour
  HasBucket-add_row hour row buckets has =
      rw (add_row_lem lookback_start now row buckets)
        (elim (Bool-cases (is_counted lookback_start now row)) [
          | inr e ↦ rw e has
          | inl e ↦ rw e (
              HasBucket-insert hour (row_hour row)
                (count_row row (bucket_at (row_hour row) buckets)) buckets has)
        ])

  HasBucket-add_rows :
      (hour : ℤ) (rows : List HistoryRow) (buckets : Dict ℤ Counter)
      → HasBucket buckets hour
      → HasBucket (add_rows lookback_start now rows buckets) hour
  unfolding add_rows
  HasBucket-add_rows hour [] buckets has = has
  HasBucket-add_rows hour (row ∷ rows) buckets has =
      HasBucket-add_rows hour rows (add_row lookback_start now row buckets)
        (HasBucket-add_row hour row buckets has)

  -- A row of the window has a bucket at its hour.
  abbrev pub IsCovered : Dict ℤ Counter → HistoryRow → Type 0
  IsCovered buckets row =
      is_counted lookback_start now row ≡ true → HasBucket buckets (row_hour row)

  row-HasBucket :
      (row : HistoryRow) (buckets : Dict ℤ Counter)
      → IsCovered (add_row lookback_start now row buckets) row
  row-HasBucket row buckets h =
      let hour = row_hour row in
      rw (add_row_lem lookback_start now row buckets) (
        rw h (
          count_row row (bucket_at hour buckets),
          rw (lookup-insert hour hour (count_row row (bucket_at hour buckets)) buckets)
              (rw (beq_refl hour) refl),
        ))

  pub add_rows-IsCovered :
      (rows : List HistoryRow) (buckets : Dict ℤ Counter)
      → All (IsCovered (add_rows lookback_start now rows buckets)) rows
  unfolding add_rows
  add_rows-IsCovered [] buckets = tt
  add_rows-IsCovered (row ∷ rows) buckets = (
    λ h.
        HasBucket-add_rows (row_hour row) rows (add_row lookback_start now row buckets)
          (row-HasBucket row buckets h),
    add_rows-IsCovered rows (add_row lookback_start now row buckets),
  )
