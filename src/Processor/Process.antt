-- ===== src/Processor/Process.antt =====
-- `EventProcessor.process` of processor.py: the duplicate check, the dispatch and the handler of
-- `DomainValidationError`.
use smart_warehouse_platform.Prelude.{some, none, if◌then◌else◌}
use smart_warehouse_platform.Prelude.Eq.{◌==◌, string_eq}
use smart_warehouse_platform.Domain.Models.{Instant, EventContext}
use smart_warehouse_platform.Domain.Result.{
  Result, ok, invalid, crashed, raise, DomainValidationError, ProcessResult, duplicate, dlq,
  unknown_event_type, unsupported_event_type,
}
use smart_warehouse_platform.Repository.Schema.{Tables}
use smart_warehouse_platform.Repository.Cql.{Session}
use smart_warehouse_platform.Repository.{is_event_processed}
use smart_warehouse_platform.Processor.Handlers.{
  process_product_received, process_product_shipped, process_product_moved,
  process_product_reserved, process_product_released, process_inventory_counted,
}
use smart_warehouse_platform.Processor.Orders.{process_order_created, process_order_completed}

abbrev pub duplicate_result : ProcessResult
duplicate_result = record {
  action = duplicate;
  outcome = "DUPLICATE";
  error_code = none;
  error_reason = none;
}

abbrev pub dlq_result : DomainValidationError → ProcessResult
dlq_result e = record {
  action = dlq;
  outcome = "DLQ";
  error_code = some e.error_code;
  error_reason = some e.message;
}

-- `except DomainValidationError`: nothing has been written when one is raised.
abbrev pub caught : Tables → Result (ProcessResult × Tables) → Result (ProcessResult × Tables)
caught t (ok r) = ok r
caught t (invalid e) = ok (dlq_result e, t)
caught t crashed = crashed

module _ (session : Session) (now : Instant) (context : EventContext) (t : Tables) where
  -- The chain of tests on the event type.
  unfoldable pub dispatch : Result (ProcessResult × Tables)
  dispatch =
      let event_type = context.event_type in
      if event_type == "PRODUCT_RECEIVED"
      then process_product_received session now context t
      else if event_type == "PRODUCT_SHIPPED"
      then process_product_shipped session now context t
      else if event_type == "PRODUCT_MOVED"
      then process_product_moved session now context t
      else if event_type == "PRODUCT_RESERVED"
      then process_product_reserved session now context t
      else if event_type == "PRODUCT_RELEASED"
      then process_product_released session now context t
      else if event_type == "INVENTORY_COUNTED"
      then process_inventory_counted session now context t
      else if event_type == "ORDER_CREATED"
      then process_order_created session now context t
      else if event_type == "ORDER_COMPLETED"
      then process_order_completed session now context t
      else raise unknown_event_type (unsupported_event_type event_type)

  unfoldable pub process : Result (ProcessResult × Tables)
  unfolding dispatch
  process =
      if is_event_processed t context.event_id then ok (duplicate_result, t) else caught t dispatch
