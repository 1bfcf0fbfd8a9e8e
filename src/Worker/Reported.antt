-- ===== src/Worker/Reported.antt =====
-- The lag that the worker reports is never negative.
use smart_warehouse_platform.Prelude.{
  All, either, AllEntries, AllEntries-insert, Dict, String, ℕ, ℤ, pos, ◌≤ℤ◌, Bool, true, false,
  List, [], ◌∷◌, Option, none, some, arith,
}
use smart_warehouse_platform.Prelude.Eq.{int_eq}
use smart_warehouse_platform.Domain.Value.{Fields}
use smart_warehouse_platform.Worker.State.{World, Services}
use smart_warehouse_platform.Worker.Refresh.{
  Clock, is_due, LagState, LagAnswers, partitions_of, offsets, lags, set_lags, before_error,
  watermark_or_zero, report_offsets, report_lags, report_partitions, refresh_lag,
}
use smart_warehouse_platform.Worker.Lag.{lags-bounds}
use smart_warehouse_platform.Worker.Loop.{reachable_keeps}
use smart_warehouse_platform.Worker.Control.{ConsumerWorker, ReachableWorker}

abbrev pub AreNonNegative : LagState → Type 0
AreNonNegative state = AllEntries (λ partition lag. pos 0 ≤ℤ lag) state.consumer_lag

set_lags-AreNonNegative :
    (high : ℤ → ℤ) (rs : List (ℤ × ℤ)) (gauge : Dict ℤ ℤ)
    → All (λ reported. (pos 0 ≤ℤ reported.1) × (reported.1 ≤ℤ high (reported.0))) rs
    → AllEntries (λ partition lag. pos 0 ≤ℤ lag) gauge
    → AllEntries (λ partition lag. pos 0 ≤ℤ lag) (set_lags rs gauge)
set_lags-AreNonNegative high [] gauge h g = g
set_lags-AreNonNegative high ((p, lag) ∷ rs) gauge h g =
    set_lags-AreNonNegative high rs _ h.1
      (AllEntries-insert (λ partition lag. pos 0 ≤ℤ lag) p lag gauge h.0.0 g)

watermark_or_zero-bound : (n : Option ℕ) → pos 0 ≤ℤ watermark_or_zero n
watermark_or_zero-bound none = ground arith
watermark_or_zero-bound (some n) = ground arith

report_offsets-AreNonNegative :
    (client : LagAnswers) (ps : List ℤ) (committed : Option (List ℤ)) (state : LagState)
    → AreNonNegative state
    → AreNonNegative (report_offsets client ps committed state).1
unfolding report_offsets
report_offsets-AreNonNegative client ps none state h = h
report_offsets-AreNonNegative client ps (some committed) state h =
    let high : ℤ → ℤ = λ p. watermark_or_zero (client.high p) in
    set_lags-AreNonNegative high (lags high (offsets ps committed []) (before_error client.high ps))
      state.consumer_lag
      (lags-bounds high (offsets ps committed []) (before_error client.high ps)
        (λ p. watermark_or_zero-bound (client.high p)))
      h

report_lags-AreNonNegative :
    (client : LagAnswers) (ps : List ℤ) (state : LagState)
    → AreNonNegative state
    → AreNonNegative (report_lags client ps state).1
unfolding report_lags
report_lags-AreNonNegative client [] state h = h
report_lags-AreNonNegative client (p ∷ ps) state h =
    report_offsets-AreNonNegative client (p ∷ ps) client.committed state h

report_partitions-AreNonNegative :
    (client : LagAnswers) (found : Option (List ℤ)) (state : LagState)
    → AreNonNegative state
    → AreNonNegative (report_partitions client found state).1
report_partitions-AreNonNegative client none state h = h
report_partitions-AreNonNegative client (some ps) state h =
    report_lags-AreNonNegative client ps state h

refresh_lag-AreNonNegative :
    (seconds : ℤ) (clock : Clock) (client : LagAnswers) (assignment : List ℤ) (state : LagState)
    → AreNonNegative state
    → AreNonNegative (refresh_lag seconds clock client assignment state).1
unfolding refresh_lag
refresh_lag-AreNonNegative seconds clock client assignment state h =
    let due : LagState = record state { last_lag_refresh = clock.kept } in
    either (λ (r : Bool × LagState). AreNonNegative r.1)
      (is_due seconds clock state.last_lag_refresh) _ (false, state)
      (either (λ (r : Bool × LagState). AreNonNegative r.1) client.is_closed (true, due) _ h
        (report_partitions-AreNonNegative client (partitions_of assignment client.topic) due h))
      h

module _ (dumps : Fields → String) (services : Services) where
  -- In every state that any sequence of `start`, `stop`, `pause`, `resume`, assignments of partitions
  -- and rounds of the loop leads to, no lag that the gauge holds is negative, whatever offsets and
  -- watermarks the client answers.
  pub ReachableWorker-AreNonNegative :
      (world : World) (worker : ConsumerWorker)
      → ReachableWorker dumps services world worker
      → AreNonNegative worker.lag
  ReachableWorker-AreNonNegative world worker reached =
      reachable_keeps dumps services (λ w lag. AreNonNegative lag) (λ now m w lag h. h)
        (λ seconds clock client assignment w lag h.
          refresh_lag-AreNonNegative seconds clock client assignment lag h)
        world worker tt reached
