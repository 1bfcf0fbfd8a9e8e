-- ===== src/Inventory/Consistency.antt =====
-- The invariant of the stored warehouse, and that the last steps of every handler keep it.
use smart_warehouse_platform.Prelude.{
  String, pos, ◌≤ℤ◌, ◌≡◌, List, [], ◌∷◌, Option, none, some, int_laws, parts_of_eq, ◌∙◌, sym, subst,
  Dict,
}
use smart_warehouse_platform.Domain.Models.{
  Instant, InventoryState, ProductTotalsState, ZoneInfo, OrderState, EventContext, total_quantity,
}
use smart_warehouse_platform.Domain.Result.{ErrorCode, Message, ok, ProcessResult, >>=-eq-ok}
use smart_warehouse_platform.Repository.Schema.{Tables}
use smart_warehouse_platform.Repository.Cql.{Session}
use smart_warehouse_platform.Repository.Partition.{sum_by}
use smart_warehouse_platform.Repository.{apply_state_change}
use smart_warehouse_platform.Processor.Rows.{rows_by_zone}
use smart_warehouse_platform.Processor.Totals.{build_totals}
use smart_warehouse_platform.Processor.Capacity.{validate_zone_capacities}
use smart_warehouse_platform.Processor.Handlers.{apply_rows, applied_result}
use smart_warehouse_platform.Inventory.Coherence.{IsCoherent}
use smart_warehouse_platform.Inventory.Changes.{
  Changes, put_rows-IsCoherent, zone_sum-put_rows, product_sum-put_rows,
}
use smart_warehouse_platform.Inventory.Grouping.{Aligned}
use smart_warehouse_platform.Inventory.Fits.{validate_zone_capacities-fits}
use smart_warehouse_platform.Inventory.Totals.{
  stored_available, stored_reserved, stored_available-put_totals, stored_reserved-put_totals,
}
use smart_warehouse_platform.Inventory.Deltas.{available, reserved}
use smart_warehouse_platform.Inventory.Batch.{changed, apply_state_change-eq-ok}

-- The inventory tables agree and hold no negative stock, each product's totals are the sums of its
-- rows, and no zone holds more than its capacity.
pub record IsConsistent (t : Tables) : Type 0 where
  pub coherent : IsCoherent t
  pub available_total :
      (p : String)
      → stored_available (t.inventory_totals_by_product p)
        ≡ sum_by available (t.inventory_by_product p)
  pub reserved_total :
      (p : String)
      → stored_reserved (t.inventory_totals_by_product p)
        ≡ sum_by reserved (t.inventory_by_product p)
  pub within_capacity :
      (z : String) (zone : ZoneInfo)
      → t.zones_by_id z ≡ some zone
      → sum_by total_quantity (t.inventory_by_zone z) ≤ℤ zone.capacity

pub Changes-Aligned : (t : Tables) (cs us : List InventoryState) → Changes t cs us → Aligned cs us
Changes-Aligned t [] [] h = tt
Changes-Aligned t (c ∷ cs) (u ∷ us) h = (h.0, h.3, Changes-Aligned t cs us h.4)
Changes-Aligned t [] (u ∷ us) h = absurd h
Changes-Aligned t (c ∷ cs) [] h = absurd h

pub zero_total :
    (c : InventoryState)
    → c.available_quantity ≡ pos 0
    → c.reserved_quantity ≡ pos 0
    → total_quantity c ≡ pos 0
unfolding total_quantity
zero_total c a r = omega (int_laws, parts_of_eq a, parts_of_eq r)

module _ (t : Tables) (cs us : List InventoryState) (changes : Changes t cs us) (h : IsConsistent t)
    (context : EventContext) (now : Instant) (totals : List ProductTotalsState)
    (validated : validate_zone_capacities t (rows_by_zone us) (rows_by_zone cs) ≡ ok tt)
    (built : build_totals now t context.occurred_at cs us ≡ ok totals) where
  -- The tables after the batch are consistent.
  pub changed-IsConsistent :
      (order : Option OrderState) (outcome : String) (code : Option ErrorCode)
      (reason : Option Message)
      → IsConsistent (changed us totals order context now outcome code reason t)
  changed-IsConsistent order outcome code reason =
      let a = Changes-Aligned t cs us changes in
      let kept = put_rows-IsCoherent t cs us changes h.coherent in
      record {
        coherent = record {
          placed = kept.placed;
          stock = kept.stock;
          product_view = kept.product_view;
          zone_view = kept.zone_view;
          product_distinct = kept.product_distinct;
          zone_distinct = kept.zone_distinct;
        };
        available_total = λ p. omega (
          int_laws,
          parts_of_eq (h.available_total p),
          parts_of_eq
              (stored_available-put_totals now t context.occurred_at cs us a totals built p),
          parts_of_eq (product_sum-put_rows available (λ c x y. x) p t cs us h.coherent changes),
        );
        reserved_total = λ p. omega (
          int_laws,
          parts_of_eq (h.reserved_total p),
          parts_of_eq (stored_reserved-put_totals now t context.occurred_at cs us a totals built p),
          parts_of_eq (product_sum-put_rows reserved (λ c x y. y) p t cs us h.coherent changes),
        );
        within_capacity = λ z zone e. omega (
          int_laws,
          validate_zone_capacities-fits t z cs us a validated e (h.within_capacity z zone e),
          parts_of_eq (zone_sum-put_rows total_quantity zero_total z t cs us h.coherent changes),
        );
      }

-- What a successful run of a handler's last steps has done.
module _ (session : Session) (now : Instant) (context : EventContext) (t : Tables)
    (cs us : List InventoryState)
    (updated_by_zone current_by_zone : Dict String (List InventoryState))
    (order : Option OrderState) (r : ProcessResult) (t' : Tables) where
  pub apply_rows-eq-ok :
      apply_rows session now context t cs us updated_by_zone current_by_zone order ≡ ok (r, t')
      → (totals : List ProductTotalsState) × (validate_zone_capacities t updated_by_zone
            current_by_zone
          ≡ ok tt)
        × (build_totals now t context.occurred_at cs us ≡ ok totals)
        × (r ≡ applied_result)
        × (t' ≡ changed us totals order context now "APPLIED" none none t)
  unfolding apply_rows
  apply_rows-eq-ok done =
      let (u, validated, rest) =
        >>=-eq-ok (validate_zone_capacities t updated_by_zone current_by_zone) _ done in
      let (totals, built, rest') =
        >>=-eq-ok (build_totals now t context.occurred_at cs us) _ rest in
      let (t'', written, last) =
        >>=-eq-ok (apply_state_change session now us totals order context "APPLIED" none none t) _
          rest' in
      let same =
        apply_state_change-eq-ok us totals order context now "APPLIED" none none t session t''
          written in
      (totals, validated, built, cc (last), cc (last) ∙ same)

module _ (session : Session) (now : Instant) (context : EventContext) (t : Tables)
    (cs us : List InventoryState) (changes : Changes t cs us) (h : IsConsistent t)
    (order : Option OrderState) (r : ProcessResult) (t' : Tables) where
  pub apply_rows-IsConsistent :
      apply_rows session now context t cs us (rows_by_zone us) (rows_by_zone cs) order ≡ ok (r, t')
      → IsConsistent t'
  apply_rows-IsConsistent done =
      let (totals, validated, built, _, same) =
        apply_rows-eq-ok session now context t cs us (rows_by_zone us) (rows_by_zone cs) order r t'
          done in
      subst IsConsistent (sym same) (
        changed-IsConsistent t cs us changes h context now totals validated built order "APPLIED"
          none none)
