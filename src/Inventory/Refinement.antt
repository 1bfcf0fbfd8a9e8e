-- ===== src/Inventory/Refinement.antt =====
-- `EventProcessor.process` implements the abstract description of its events.
use smart_warehouse_platform.Prelude.{
  ◌+ℤ◌, ◌≡◌, ◌≢◌, refl, true, false, Bool, ◌⊎◌, inl, inr, if◌then◌else◌,
}
use smart_warehouse_platform.Prelude.Eq.{◌==◌, string_eq}
use smart_warehouse_platform.Domain.Models.{Instant, InventoryKey, EventContext}
use smart_warehouse_platform.Domain.Result.{
  Result, ok, invalid, crashed, ProcessResult, applied, unknown_event_type, unsupported_event_type,
}
use smart_warehouse_platform.Repository.Schema.{Tables}
use smart_warehouse_platform.Repository.Cql.{Session}
use smart_warehouse_platform.Repository.{is_event_processed}
use smart_warehouse_platform.Processor.Handlers.{applied_result}
use smart_warehouse_platform.Processor.Process.{
  process, dispatch, caught, duplicate_result, dlq_result,
}
use smart_warehouse_platform.Inventory.Coherence.{IsCoherent}
use smart_warehouse_platform.Inventory.Deltas.{available, reserved}
use smart_warehouse_platform.Inventory.Ensures.{
  Ensures, Ensures-ok, Ensures-if, Ensures-raise, Ensures-crashed,
}
use smart_warehouse_platform.Inventory.Levels.{level}
use smart_warehouse_platform.Inventory.Effects.{Effect, effect}
use smart_warehouse_platform.Inventory.Shifts.{Shifts}
use smart_warehouse_platform.Inventory.RowShifts.{
  received-Shifts, shipped-Shifts, reserved-Shifts, released-Shifts, counted-Shifts,
}
use smart_warehouse_platform.Inventory.MoveShifts.{moved-Shifts}
use smart_warehouse_platform.Inventory.OrderShifts.{created-Shifts, completed-Shifts}

module _ (session : Session) (now : Instant) (context : EventContext) (t : Tables) where
  arm :
      (test : Bool) (e e' : Effect) (handler rest : Result (ProcessResult × Tables))
      → Ensures (Shifts session now context t e) handler
      → Ensures (Shifts session now context t e') rest
      → Ensures
          (Shifts session now context t (if test then e else e'))
          (if test then handler else rest)
  arm true e e' handler rest a b = a
  arm false e e' handler rest a b = b

  dispatch-Shifts :
      IsCoherent t
      → Ensures (Shifts session now context t (effect context t)) (dispatch session now context t)
  unfolding dispatch
  dispatch-Shifts h =
      arm (context.event_type == "PRODUCT_RECEIVED") _ _ _ _
        (received-Shifts session now context t h)
        (arm (context.event_type == "PRODUCT_SHIPPED") _ _ _ _
          (shipped-Shifts session now context t h)
          (arm (context.event_type == "PRODUCT_MOVED") _ _ _ _
            (moved-Shifts session now context t h)
            (arm (context.event_type == "PRODUCT_RESERVED") _ _ _ _
              (reserved-Shifts session now context t h)
              (arm (context.event_type == "PRODUCT_RELEASED") _ _ _ _
                (released-Shifts session now context t h)
                (arm (context.event_type == "INVENTORY_COUNTED") _ _ _ _
                  (counted-Shifts session now context t h)
                  (arm (context.event_type == "ORDER_CREATED") _ _ _ _
                    (created-Shifts session now context t h)
                    (arm (context.event_type == "ORDER_COMPLETED") _ _ _ _
                      (completed-Shifts session now context t h)
                      (Ensures-raise unknown_event_type
                        (unsupported_event_type context.event_type)))))))))

  -- Nothing has changed, or the event was applied and has shifted the stock by its effect.
  abbrev pub HasEffect : ProcessResult × Tables → Type 0
  HasEffect r =
      ((r.0.action ≢ applied) × (r.1 ≡ t))
      ⊎ ((r.0 ≡ applied_result)
          × ((k : InventoryKey)
              → (level available r.1 k ≡ level available t k +ℤ (effect context t).more_available k)
                × (level reserved r.1 k
                    ≡ level reserved t k +ℤ (effect context t).more_reserved k)))

  settled :
      (r : ProcessResult × Tables) → Shifts session now context t (effect context t) r → HasEffect r
  settled r (inl (e, same)) = inl ((λ x. cc), same)
  settled r (inr shifted) = inr shifted

  caught-HasEffect :
      (m : Result (ProcessResult × Tables))
      → Ensures (Shifts session now context t (effect context t)) m
      → Ensures HasEffect (caught t m)
  caught-HasEffect (ok r) h = Ensures-ok r (settled r (h.of r refl))
  caught-HasEffect (invalid e) h = Ensures-ok (dlq_result e, t) (inl ((λ x. cc), refl))
  caught-HasEffect crashed h = Ensures-crashed

  process-Ensures : IsCoherent t → Ensures HasEffect (process session now context t)
  unfolding process
  process-Ensures h =
      Ensures-if (is_event_processed t context.event_id) (ok (duplicate_result, t))
        (caught t (dispatch session now context t))
        (λ _. Ensures-ok (duplicate_result, t) (inl ((λ x. cc), refl)))
        (λ _. caught-HasEffect (dispatch session now context t) (dispatch-Shifts h))

-- From tables that agree, `process` either applies the event, and then the stock under every key is
-- shifted by just the effect that the event's fields describe, or changes nothing and does not
-- report the event as applied.
pub process-HasEffect :
    (session : Session) (now : Instant) (context : EventContext) (t : Tables) (r : ProcessResult)
    (t' : Tables)
    → IsCoherent t
    → process session now context t ≡ ok (r, t')
    → HasEffect session now context t (r, t')
process-HasEffect session now context t r t' h done =
    (process-Ensures session now context t h).of (r, t') done
