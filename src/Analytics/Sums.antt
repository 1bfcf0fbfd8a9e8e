-- ===== src/Analytics/Sums.antt =====
-- The sums of the summary, from the rows of the window.
use smart_warehouse_platform.Prelude.{
  String, ℕ, ◌+◌, ℤ, ltb_ℤ, ltb_ℤ→ge, Bool, true, false, not, ◌&&◌, ◌||◌, List, [], ◌∷◌, Option,
  none, some, Dict, keys, All, Bool-cases, inl, inr, ◌≡◌, refl, ◌∙◌, arith, if◌then◌else◌,
}
use smart_warehouse_platform.Prelude.Eq.{◌==◌, string_eq, int_eq}
use smart_warehouse_platform.Repository.Schema.{HistoryRow}
use smart_warehouse_platform.Analytics.{
  Counter, count_of, bucket_at, hour_of_ms, add_rows, up_to, first_hour, TrafficPoint, point_of,
  sum_points, series_of,
}
use smart_warehouse_platform.Analytics.Counts.{
  hits, hour_at, row_hour, is_within, is_counted, hits_at, count_of-add_rows,
}
use smart_warehouse_platform.Analytics.Covered.{
  occurrences, occurrences-up_to, first_hour-below, IsCovered, add_rows-IsCovered,
}

abbrev sum_hours : (ℤ → ℕ) → List ℤ → ℕ
sum_hours f [] = 0
sum_hours f (hour ∷ hours) = f hour + sum_hours f hours

-- The hits of the window's rows.
abbrev pub hits_in : ℤ → ℤ → String → List HistoryRow → ℕ
hits_in lookback_start now key [] = 0
hits_in lookback_start now key (row ∷ rows) =
    (if is_counted lookback_start now row then hits key row else 0)
    + hits_in lookback_start now key rows

sum_hours-ext :
    (f g : ℤ → ℕ) (hours : List ℤ)
    → ((hour : ℤ) → f hour ≡ g hour)
    → sum_hours f hours ≡ sum_hours g hours
sum_hours-ext f g [] h = refl
sum_hours-ext f g (hour ∷ hours) h = ground (arith, h hour, sum_hours-ext f g hours h)

sum_hours-zero : (hours : List ℤ) → sum_hours (λ hour. 0) hours ≡ 0
sum_hours-zero [] = refl
sum_hours-zero (hour ∷ hours) = ground (arith, sum_hours-zero hours)

sum_hours-add :
    (f g : ℤ → ℕ) (hours : List ℤ)
    → sum_hours (λ hour. f hour + g hour) hours ≡ sum_hours f hours + sum_hours g hours
sum_hours-add f g [] = refl
sum_hours-add f g (hour ∷ hours) = ground (arith, sum_hours-add f g hours)

module _ (n : ℕ) (x : ℤ) where
  sum_hours-none :
      (hours : List ℤ)
      → occurrences x hours ≡ 0
      → sum_hours (λ hour. if x == hour then n else 0) hours ≡ 0
  sum_hours-none [] h = refl
  sum_hours-none (hour ∷ hours) h = ground (arith, sum_hours-none hours, h)

  -- A number that is in the list once is counted once.
  sum_hours-once :
      (hours : List ℤ)
      → occurrences x hours ≡ 1
      → sum_hours (λ hour. if x == hour then n else 0) hours ≡ n
  sum_hours-once [] h = ground arith
  sum_hours-once (hour ∷ hours) h = ground (arith, sum_hours-none hours, sum_hours-once hours, h)

module _ (lookback_start now : ℤ) (key : String) (hours : List ℤ) where
  sum_hours-row :
      (row : HistoryRow)
      → (is_counted lookback_start now row ≡ true → occurrences (row_hour row) hours ≡ 1)
      → sum_hours
          (λ hour.
            if is_counted lookback_start now row && row_hour row == hour then hits key row else 0)
          hours
        ≡ (if is_counted lookback_start now row then hits key row else 0)
  sum_hours-row row once = elim (Bool-cases (is_counted lookback_start now row)) [
    | inl e ↦ rw e (sum_hours-once (hits key row) (row_hour row) hours (once e))
    | inr e ↦ rw e (sum_hours-zero hours)
  ]

  -- The hours' hits, of rows whose hours are in the list once, are the rows' hits.
  sum_hours-hits_at :
      (rows : List HistoryRow)
      → All
          (λ row. is_counted lookback_start now row ≡ true → occurrences (row_hour row) hours ≡ 1)
          rows
      → sum_hours (λ hour. hits_at lookback_start now key hour rows) hours
        ≡ hits_in lookback_start now key rows
  sum_hours-hits_at [] h = sum_hours-zero hours
  sum_hours-hits_at (row ∷ rows) h =
      sum_hours-add
        (λ hour.
          if is_counted lookback_start now row && row_hour row == hour then hits key row else 0)
        (λ hour. hits_at lookback_start now key hour rows) hours
      ∙ (rw (sum_hours-row row h.0) (rw (sum_hours-hits_at rows h.1) refl))

series_of-sum :
    (f : TrafficPoint → ℕ) (key : String) (buckets : Dict ℤ Counter) (hours : List ℤ)
    → ((hour : ℤ) (bucket : Counter) → f (point_of hour bucket) ≡ count_of key bucket)
    → sum_points f (series_of buckets hours)
      ≡ sum_hours (λ hour. count_of key (bucket_at hour buckets)) hours
series_of-sum f key buckets [] h = refl
series_of-sum f key buckets (hour ∷ hours) h =
    ground (arith, h hour (bucket_at hour buckets), series_of-sum f key buckets hours h)

neither : (a b : Bool) → not (a || b) ≡ true → b ≡ false
neither a b h = ground arith

no_more : {a b : ℕ} → a ≡ b + 0 → a ≡ b
no_more h = ground (arith, h)

module _ (lookback_start now : ℤ) (key : String) (rows : List HistoryRow) where
  abbrev all_buckets : Dict ℤ Counter
  all_buckets = add_rows lookback_start now rows []

  abbrev all_hours : List ℤ
  all_hours = up_to (first_hour now (keys all_buckets)) now

  not_late :
      (ms : Option ℤ) → is_within lookback_start now ms ≡ true → ltb_ℤ now (hour_at ms) ≡ false
  not_late none h = ground arith
  not_late (some ms) h =
      neither (ltb_ℤ (hour_of_ms ms) lookback_start) (ltb_ℤ now (hour_of_ms ms)) h

  covered-once :
      (row : HistoryRow)
      → IsCovered lookback_start now all_buckets row
      → is_counted lookback_start now row ≡ true
      → occurrences (row_hour row) all_hours ≡ 1
  covered-once row covered h =
      let hour = row_hour row in
      occurrences-up_to hour (first_hour now (keys all_buckets)) now
        (first_hour-below now hour ((covered h).0) all_buckets ((covered h).1))
        (ltb_ℤ→ge now hour (not_late row.occurred_at_ms h))

  All-once :
      (rest : List HistoryRow)
      → All (IsCovered lookback_start now all_buckets) rest
      → All
          (λ row.
            is_counted lookback_start now row ≡ true → occurrences (row_hour row) all_hours ≡ 1)
          rest
  All-once [] h = tt
  All-once (row ∷ rest) h = (covered-once row h.0, All-once rest h.1)

  pub series_of-hits_in :
      (f : TrafficPoint → ℕ)
      → ((hour : ℤ) (bucket : Counter) → f (point_of hour bucket) ≡ count_of key bucket)
      → sum_points f (series_of all_buckets all_hours) ≡ hits_in lookback_start now key rows
  series_of-hits_in f h =
      series_of-sum f key all_buckets all_hours h
      ∙ (sum_hours-ext (λ hour. count_of key (bucket_at hour all_buckets))
            (λ hour. hits_at lookback_start now key hour rows) all_hours
            (λ hour. no_more (count_of-add_rows lookback_start now key hour rows []))
          ∙ sum_hours-hits_at lookback_start now key all_hours rows
              (All-once rows (add_rows-IsCovered lookback_start now rows [])))
