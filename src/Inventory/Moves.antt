-- ===== src/Inventory/Moves.antt =====
-- The handler of moves keeps the warehouse consistent.
use smart_warehouse_platform.Prelude.{
  String, ℤ, pos, ◌≤ℤ◌, ◌≡◌, refl, [], ◌∷◌, none, int_laws, ltb_ℤ, ltb_ℤ→ge, ◌∙◌, sym, ap, false,
}
use smart_warehouse_platform.Prelude.Eq.{◌==◌, string_eq, ne_of_beq}
use smart_warehouse_platform.Domain.Value.{get}
use smart_warehouse_platform.Domain.Models.{Instant, InventoryKey, InventoryState, EventContext}
use smart_warehouse_platform.Repository.Schema.{Tables}
use smart_warehouse_platform.Repository.Cql.{Session}
use smart_warehouse_platform.Processor.Checks.{require_text, require_positive, is_stale}
use smart_warehouse_platform.Processor.Rows.{get_inventory, rows_by_zone}
use smart_warehouse_platform.Processor.Handlers.{
  stale_result, apply_rows, source_row, target_row, process_product_moved, move_rows,
}
use smart_warehouse_platform.Inventory.Changes.{Changes}
use smart_warehouse_platform.Inventory.Consistency.{IsConsistent, apply_rows-IsConsistent}
use smart_warehouse_platform.Inventory.Ensures.{
  Ensures, Ensures-ok, Ensures-if, Ensures-bind, Ensures-reject_if, require_positive-pos,
  get_inventory-IsRead,
}
use smart_warehouse_platform.Inventory.Handlers.{LeavesConsistent}

rows_by_zone_two :
    (a b : InventoryState)
    → (a.zone_id == b.zone_id) ≡ false
    → rows_by_zone (a ∷ b ∷ []) ≡ (a.zone_id, a ∷ []) ∷ (b.zone_id, b ∷ []) ∷ []
unfolding rows_by_zone
rows_by_zone_two a b e = rw e refl

module _ (session : Session) (now : Instant) (context : EventContext) (t : Tables)
    (h : IsConsistent t) (quantity : ℤ) (positive : pos 1 ≤ℤ quantity)
    (product_id from_zone_id to_zone_id : String)
    (different : (from_zone_id == to_zone_id) ≡ false) where
  abbrev source_key : InventoryKey
  source_key = record { product_id = product_id; zone_id = from_zone_id }

  abbrev target_key : InventoryKey
  target_key = record { product_id = product_id; zone_id = to_zone_id }

  abbrev source : InventoryState
  source = get_inventory now t source_key

  abbrev target : InventoryState
  target = get_inventory now t target_key

  abbrev source' : InventoryState
  source' = source_row now context quantity source

  abbrev target' : InventoryState
  target' = target_row now context quantity source target

  source_zone : source.zone_id ≡ from_zone_id
  source_zone =
      ap (λ (k : InventoryKey). k.zone_id) (get_inventory-IsRead now t source_key h.coherent).0

  target_zone : target.zone_id ≡ to_zone_id
  target_zone =
      ap (λ (k : InventoryKey). k.zone_id) (get_inventory-IsRead now t target_key h.coherent).0

  zones_differ : (source.zone_id == target.zone_id) ≡ false
  zones_differ = (λ i. source_zone i == target_zone i) ∙ different

  move-Changes :
      ltb_ℤ source.available_quantity quantity ≡ false
      → Changes t (source ∷ target ∷ []) (source' ∷ target' ∷ [])
  unfolding source_row target_row
  move-Changes enough =
      let from = get_inventory-IsRead now t source_key h.coherent in
      let to = get_inventory-IsRead now t target_key h.coherent in
      (
        refl,
        from.1,
        (omega (int_laws, ltb_ℤ→ge source.available_quantity quantity enough, from.2), from.2.1),
        (
          (λ e.
              ne_of_beq source.zone_id target.zone_id zones_differ
                (ap (λ (k : InventoryKey). k.zone_id) (sym e))),
          tt,
        ),
        (refl, to.1, (omega (int_laws, to.2), to.2.1), tt, tt),
      )

  before :
      rows_by_zone (source ∷ target ∷ [])
      ≡ (from_zone_id, source ∷ []) ∷ (to_zone_id, target ∷ []) ∷ []
  before = rows_by_zone_two source target zones_differ ∙ λ i.
      (source_zone i, source ∷ []) ∷ (target_zone i, target ∷ []) ∷ []

  after :
      rows_by_zone (source' ∷ target' ∷ [])
      ≡ (from_zone_id, source' ∷ []) ∷ (to_zone_id, target' ∷ []) ∷ []
  unfolding source_row target_row
  after = rows_by_zone_two source' target' zones_differ ∙ λ i.
      (source_zone i, source' ∷ []) ∷ (target_zone i, target' ∷ []) ∷ []

  pub move_rows-IsConsistent :
      Ensures LeavesConsistent
        (move_rows session now context t quantity from_zone_id to_zone_id source target)
  unfolding move_rows
  move_rows-IsConsistent =
      Ensures-if (is_stale context.occurred_at (source.last_event_ts ∷ target.last_event_ts ∷ [])) _
        _ (λ _. Ensures-ok (stale_result, t) h)
        (λ _. Ensures-reject_if _ _ _ _ λ enough. record {
          of = λ r done.
              apply_rows-IsConsistent session now context t (source ∷ target ∷ [])
                (source' ∷ target' ∷ []) (move-Changes enough) h none r.0 r.1
                ((λ i.
                    apply_rows session now context t (source ∷ target ∷ []) (source' ∷ target' ∷ [])
                      (after i) (before i) none)
                  ∙ done);
        })

module _ (session : Session) (now : Instant) (context : EventContext) (t : Tables)
    (h : IsConsistent t) where
  pub moved-IsConsistent : Ensures LeavesConsistent (process_product_moved session now context t)
  unfolding process_product_moved
  moved-IsConsistent =
      Ensures-bind (require_positive (get "quantity" context.event) "quantity") _
        λ quantity positive.
          Ensures-bind (require_text (get "product_id" context.event) "product_id") _
            λ product_id _.
              Ensures-bind (require_text (get "from_zone_id" context.event) "from_zone_id") _
                λ from_zone_id _.
                  Ensures-bind (require_text (get "to_zone_id" context.event) "to_zone_id") _
                    λ to_zone_id _. Ensures-reject_if _ _ _ _ λ different.
                      move_rows-IsConsistent session now context t h quantity
                        (require_positive-pos (get "quantity" context.event) "quantity" positive)
                        product_id from_zone_id to_zone_id different
