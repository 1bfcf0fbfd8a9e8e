-- ===== src/Worker/Lag.antt =====
-- The lag that the worker reports.
use smart_warehouse_platform.Prelude.{
  Dict, lookup, All, ℤ, pos, -ℤ_parts, ◌≤ℤ◌, List, [], ◌∷◌, arith,
}
use smart_warehouse_platform.Prelude.Eq.{int_eq}
use smart_warehouse_platform.Worker.Refresh.{lag_of, lags, or_minus_one}

lag_of-within :
    (high committed_offset : ℤ)
    → pos 0 ≤ℤ high
    → (pos 0 ≤ℤ lag_of high committed_offset) × (lag_of high committed_offset ≤ℤ high)
unfolding lag_of
lag_of-within high committed_offset h = ground (arith, -ℤ_parts high committed_offset, h)

-- If the watermarks are not negative, the lag that is reported for each partition is between 0 and
-- the partition's watermark, whatever the committed offsets are, and even if there is none.
pub lags-bounds :
    (high : ℤ → ℤ) (committed : Dict ℤ ℤ) (partitions : List ℤ)
    → ((partition : ℤ) → pos 0 ≤ℤ high partition)
    → All
        (λ reported. (pos 0 ≤ℤ reported.1) × (reported.1 ≤ℤ high (reported.0)))
        (lags high committed partitions)
unfolding lags
lags-bounds high committed [] h = tt
lags-bounds high committed (partition ∷ partitions) h = (
  lag_of-within (high partition) (or_minus_one (lookup partition committed)) (h partition),
  lags-bounds high committed partitions h,
)
