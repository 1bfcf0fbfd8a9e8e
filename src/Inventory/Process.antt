-- ===== src/Inventory/Process.antt =====
-- `EventProcessor.process` keeps the warehouse consistent, whatever the event.
use smart_warehouse_platform.Prelude.{String, ◌≡◌, if◌then◌else◌}
use smart_warehouse_platform.Prelude.Eq.{◌==◌, string_eq}
use smart_warehouse_platform.Domain.Models.{Instant, EventContext}
use smart_warehouse_platform.Domain.Result.{
  Result, ok, invalid, crashed, ProcessResult, unknown_event_type, unsupported_event_type,
}
use smart_warehouse_platform.Repository.Schema.{Tables}
use smart_warehouse_platform.Repository.Cql.{Session}
use smart_warehouse_platform.Repository.{is_event_processed}
use smart_warehouse_platform.Processor.Process.{
  process, dispatch, caught, duplicate_result, dlq_result,
}
use smart_warehouse_platform.Inventory.Consistency.{IsConsistent}
use smart_warehouse_platform.Inventory.Ensures.{
  Ensures, Ensures-ok, Ensures-if, Ensures-raise, Ensures-crashed,
}
use smart_warehouse_platform.Inventory.Handlers.{
  LeavesConsistent, received-IsConsistent, shipped-IsConsistent, reserved-IsConsistent,
  released-IsConsistent, counted-IsConsistent,
}
use smart_warehouse_platform.Inventory.Moves.{moved-IsConsistent}
use smart_warehouse_platform.Inventory.Orders.{created-IsConsistent, completed-IsConsistent}

module _ (session : Session) (now : Instant) (context : EventContext) (t : Tables)
    (h : IsConsistent t) where
  -- One arm of the chain of tests.
  arm :
      (name : String) (handler rest : Result (ProcessResult × Tables))
      → Ensures LeavesConsistent handler
      → Ensures LeavesConsistent rest
      → Ensures LeavesConsistent (if context.event_type == name then handler else rest)
  arm name handler rest a b = Ensures-if (context.event_type == name) handler rest (λ _. a) (λ _. b)

  dispatch-IsConsistent : Ensures LeavesConsistent (dispatch session now context t)
  unfolding dispatch
  dispatch-IsConsistent =
      arm "PRODUCT_RECEIVED" _ _ (received-IsConsistent session now context t h) (
        arm "PRODUCT_SHIPPED" _ _ (shipped-IsConsistent session now context t h) (
          arm "PRODUCT_MOVED" _ _ (moved-IsConsistent session now context t h) (
            arm "PRODUCT_RESERVED" _ _ (reserved-IsConsistent session now context t h) (
              arm "PRODUCT_RELEASED" _ _ (released-IsConsistent session now context t h) (
                arm "INVENTORY_COUNTED" _ _ (counted-IsConsistent session now context t h) (
                  arm "ORDER_CREATED" _ _ (created-IsConsistent session now context t h) (
                    arm "ORDER_COMPLETED" _ _ (completed-IsConsistent session now context t h) (
                      Ensures-raise unknown_event_type
                        (unsupported_event_type context.event_type)))))))))

  caught-IsConsistent :
      (m : Result (ProcessResult × Tables))
      → Ensures LeavesConsistent m
      → Ensures LeavesConsistent (caught t m)
  caught-IsConsistent (ok r) e = e
  caught-IsConsistent (invalid x) e = Ensures-ok (dlq_result x, t) h
  caught-IsConsistent crashed e = Ensures-crashed

  process-Ensures : Ensures LeavesConsistent (process session now context t)
  unfolding process
  process-Ensures =
      Ensures-if (is_event_processed t context.event_id) (ok (duplicate_result, t))
        (caught t (dispatch session now context t)) (λ _. Ensures-ok (duplicate_result, t) h)
        (λ _. caught-IsConsistent (dispatch session now context t) dispatch-IsConsistent)

-- Processing any event from consistent tables leaves consistent tables, with the result that the
-- processor returns: the three inventory tables agree and hold no negative quantity, every
-- product's totals are the sums of its rows, and no zone is over its capacity.
pub process-IsConsistent :
    (session : Session) (now : Instant) (context : EventContext) (t : Tables) (r : ProcessResult)
    (t' : Tables)
    → IsConsistent t
    → process session now context t ≡ ok (r, t')
    → IsConsistent t'
process-IsConsistent session now context t r t' h done =
    (process-Ensures session now context t h).of (r, t') done
