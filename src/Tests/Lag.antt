-- ===== src/Tests/Lag.antt =====
-- The theorems on the lag at concrete answers of the client.
use smart_warehouse_platform.Prelude.{pos, negsuc, [], ◌∷◌, refl, ◌-ℤ◌, inr, arith}
use smart_warehouse_platform.Worker.Refresh.{Clock, LagState, refresh_lag}
use smart_warehouse_platform.Worker.Control.{
  new_worker, start_worker, run_loop, starts, rounds, initial, after,
}
use smart_warehouse_platform.Worker.Gauge.{Reports, refresh_lag-Reports}
use smart_warehouse_platform.Worker.Reported.{AreNonNegative, ReachableWorker-AreNonNegative}
use smart_warehouse_platform.Tests.Messages.{memory_services, empty_world, dumps}
use smart_warehouse_platform.Tests.Rounds.{topic_answers, round}

abbrev noon : Clock
noon = record { tested = pos 12; kept = pos 13 }

abbrev no_lag : LagState
no_lag = record { last_lag_refresh = pos 0; consumer_lag = [] }

refresh_lag-Reports_example :
    Reports
      (pos 5)
      noon
      topic_answers
      []
      no_lag
      (pos 0 ∷ pos 1 ∷ [])
      (pos 33 ∷ negsuc 1000 ∷ [])
      (refresh_lag (pos 5) noon topic_answers [] no_lag)
unfolding ◌-ℤ◌
refresh_lag-Reports_example =
    refresh_lag-Reports (pos 5) noon topic_answers [] no_lag (pos 0 ∷ pos 1 ∷ [])
      (pos 33 ∷ negsuc 1000 ∷ [])
      (ground arith, refl, inr (refl, refl), refl, ((40, refl), ((40, refl), tt)))

ReachableWorker-AreNonNegative_example :
    AreNonNegative
      (run_loop dumps memory_services round (start_worker (new_worker empty_world))).lag
unfolding start_worker
ReachableWorker-AreNonNegative_example =
    ReachableWorker-AreNonNegative dumps memory_services empty_world
      (run_loop dumps memory_services round (start_worker (new_worker empty_world)))
      (after (start_worker (new_worker empty_world))
        (run_loop dumps memory_services round (start_worker (new_worker empty_world)))
        (after (new_worker empty_world) (start_worker (new_worker empty_world)) initial starts)
        (rounds round refl refl))
