-- ===== src/Inventory/Stock.antt =====
-- Moves, reservations and releases keep the stock of every product.
use smart_warehouse_platform.Prelude.{
  String, ℤ, pos, ◌+ℤ◌, ◌≡◌, ◌≢◌, refl, ◌⊎◌, inl, inr, List, [], ◌∷◌, none, ◌∙◌, sym, ap, subst,
  int_laws, parts_of_eq, false, Bool-cases, Dict, Option,
}
use smart_warehouse_platform.Prelude.Eq.{◌==◌, string_eq, ne_of_beq}
use smart_warehouse_platform.Domain.Value.{get}
use smart_warehouse_platform.Domain.Models.{
  Instant, InventoryKey, InventoryState, OrderState, EventContext, composite_key,
}
use smart_warehouse_platform.Domain.Result.{Result, ok, invalid, crashed, ProcessResult}
use smart_warehouse_platform.Repository.Schema.{Tables}
use smart_warehouse_platform.Repository.Cql.{Session}
use smart_warehouse_platform.Repository.{is_event_processed}
use smart_warehouse_platform.Processor.Checks.{require_text, require_positive, is_stale}
use smart_warehouse_platform.Processor.Rows.{get_inventory}
use smart_warehouse_platform.Processor.Handlers.{
  stale_result, apply_rows, apply_row, require_key, move_rows, reserve_row, release_row, source_row,
  target_row, process_product_moved, process_product_reserved, process_product_released,
}
use smart_warehouse_platform.Processor.Process.{
  process, dispatch, caught, duplicate_result, dlq_result,
}
use smart_warehouse_platform.Inventory.Changes.{delta}
use smart_warehouse_platform.Inventory.Coherence.{IsCoherent, product_column}
use smart_warehouse_platform.Inventory.Consistency.{apply_rows-eq-ok}
use smart_warehouse_platform.Inventory.Grouping.{Aligned}
use smart_warehouse_platform.Inventory.Totals.{
  stored_available, stored_reserved, stored_available-put_totals, stored_reserved-put_totals,
}
use smart_warehouse_platform.Inventory.Deltas.{available, reserved}
use smart_warehouse_platform.Inventory.Ensures.{
  Ensures, Ensures-ok, Ensures-if, Ensures-bind, Ensures-then, Ensures-reject_if, Ensures-crashed,
  get_inventory-IsRead,
}

-- What the table of totals says that there is of a product, reserved or not.
abbrev pub stock_of : Tables → String → ℤ
stock_of t p =
    stored_available (t.inventory_totals_by_product p)
    +ℤ stored_reserved (t.inventory_totals_by_product p)

-- The event types that only shift stock.
abbrev pub OnlyShifts : String → Type 0
OnlyShifts name =
    (name ≡ "PRODUCT_MOVED") ⊎ (name ≡ "PRODUCT_RESERVED") ⊎ (name ≡ "PRODUCT_RELEASED")

module _ (session : Session) (now : Instant) (context : EventContext) (t : Tables) where
  abbrev pub KeepsStock : ProcessResult × Tables → Type 0
  KeepsStock r = (p : String) → stock_of r.1 p ≡ stock_of t p

  -- Rows whose changes cancel out for every product.
  apply_rows-KeepsStock :
      (cs us : List InventoryState) (uz cz : Dict String (List InventoryState))
      (order : Option OrderState)
      → Aligned cs us
      → ((p : String)
          → delta product_column p available cs us +ℤ delta product_column p reserved cs us ≡ pos 0)
      → Ensures KeepsStock (apply_rows session now context t cs us uz cz order)
  apply_rows-KeepsStock cs us uz cz order a balanced = record {
    of = λ r done p.
        let (totals, _, built, _, same) =
          apply_rows-eq-ok session now context t cs us uz cz order r.0 r.1 done in
        let same_stock = ap (λ x. stock_of x p) same in
        let more = stored_available-put_totals now t context.occurred_at cs us a totals built p in
        let less = stored_reserved-put_totals now t context.occurred_at cs us a totals built p in
        same_stock ∙ omega (int_laws, parts_of_eq more, parts_of_eq less, parts_of_eq (balanced p));
  }

  stale-KeepsStock : Ensures KeepsStock (ok (stale_result, t))
  stale-KeepsStock = Ensures-ok (stale_result, t) (λ p. refl)

  -- One row whose available and reserved stock have the same sum as before.
  apply_row-KeepsStock :
      (zone_id : String) (c u : InventoryState)
      → composite_key u ≡ composite_key c
      → u.available_quantity +ℤ u.reserved_quantity ≡ c.available_quantity +ℤ c.reserved_quantity
      → Ensures KeepsStock (apply_row session now context t zone_id c u)
  unfolding apply_row
  apply_row-KeepsStock zone_id c u key same =
      apply_rows-KeepsStock (c ∷ []) (u ∷ []) _ _ none (key, tt, tt)
        λ p. elim (Bool-cases (u.product_id == p)) [
          | inl e ↦ rw e (omega (int_laws, parts_of_eq same))
          | inr e ↦ rw e (omega int_laws)
        ]

  reserved-KeepsStock : Ensures KeepsStock (process_product_reserved session now context t)
  unfolding process_product_reserved
  reserved-KeepsStock =
      Ensures-bind (require_positive (get "quantity" context.event) "quantity") _ λ quantity _.
        Ensures-bind (require_key context) _ λ key _.
          Ensures-if (is_stale context.occurred_at ((get_inventory now t key).last_event_ts ∷ [])) _
            _ (λ _. stale-KeepsStock)
            λ _. Ensures-then _ _ (
              apply_row-KeepsStock key.zone_id (get_inventory now t key)
                (reserve_row now context quantity (get_inventory now t key))
                (unfold reserve_row in refl) (unfold reserve_row in omega int_laws))

  released-KeepsStock : Ensures KeepsStock (process_product_released session now context t)
  unfolding process_product_released
  released-KeepsStock =
      Ensures-bind (require_positive (get "quantity" context.event) "quantity") _ λ quantity _.
        Ensures-bind (require_key context) _ λ key _.
          Ensures-if (is_stale context.occurred_at ((get_inventory now t key).last_event_ts ∷ [])) _
            _ (λ _. stale-KeepsStock)
            λ _. Ensures-then _ _ (
              apply_row-KeepsStock key.zone_id (get_inventory now t key)
                (release_row now context quantity (get_inventory now t key))
                (unfold release_row in refl) (unfold release_row in omega int_laws))

  -- Two rows of one product, in different zones.
  move-balanced :
      (quantity : ℤ) (source target : InventoryState) (p : String)
      → source.product_id ≡ target.product_id
      → (let cs = source ∷ target ∷ [] in
          let us =
            source_row now context quantity source
            ∷ target_row now context quantity source target
            ∷ [] in
          delta product_column p available cs us +ℤ delta product_column p reserved cs us ≡ pos 0)
  unfolding source_row target_row
  move-balanced quantity source target p same = elim (Bool-cases (source.product_id == p)) [
    | inl e ↦ rw (e, sym (ap (λ x. x == p) same) ∙ e) (omega int_laws)
    | inr e ↦ rw (e, sym (ap (λ x. x == p) same) ∙ e) (omega int_laws)
  ]

  module _ (h : IsCoherent t) (quantity : ℤ) (product_id from_zone_id to_zone_id : String)
      (different : (from_zone_id == to_zone_id) ≡ false) where
    abbrev source_key : InventoryKey
    source_key = record { product_id = product_id; zone_id = from_zone_id }

    abbrev target_key : InventoryKey
    target_key = record { product_id = product_id; zone_id = to_zone_id }

    move_rows-KeepsStock : Ensures KeepsStock (
        move_rows session now context t quantity from_zone_id to_zone_id
          (get_inventory now t source_key)
          (get_inventory now t target_key))
    unfolding move_rows
    move_rows-KeepsStock =
        let source = get_inventory now t source_key in
        let target = get_inventory now t target_key in
        let from = (get_inventory-IsRead now t source_key h).0 in
        let to = (get_inventory-IsRead now t target_key h).0 in
        let apart : composite_key target ≢ composite_key source = λ e.
          ne_of_beq from_zone_id to_zone_id different
            (ap (λ (k : InventoryKey). k.zone_id) (sym from ∙ (sym e ∙ to))) in
        Ensures-if (is_stale context.occurred_at (source.last_event_ts ∷ target.last_event_ts ∷ []))
          _ _ (λ _. stale-KeepsStock)
          λ _. Ensures-then _ _ (
            apply_rows-KeepsStock (source ∷ target ∷ [])
              (source_row now context quantity source
                ∷ target_row now context quantity source target
                ∷ [])
              _ _ none (unfold source_row target_row in (refl, (apart, tt), (refl, tt, tt)))
              λ p. move-balanced quantity source target p (
                ap (λ (k : InventoryKey). k.product_id) (from)
                ∙ sym (ap (λ (k : InventoryKey). k.product_id) to)))

  moved-KeepsStock : IsCoherent t → Ensures KeepsStock (process_product_moved session now context t)
  unfolding process_product_moved
  moved-KeepsStock h =
      Ensures-bind (require_positive (get "quantity" context.event) "quantity") _ λ quantity _.
        Ensures-bind (require_text (get "product_id" context.event) "product_id") _ λ product_id _.
          Ensures-bind (require_text (get "from_zone_id" context.event) "from_zone_id") _
            λ from_zone_id _.
              Ensures-bind (require_text (get "to_zone_id" context.event) "to_zone_id") _
                λ to_zone_id _. Ensures-reject_if _ _ _ _ λ different.
                  move_rows-KeepsStock h quantity product_id from_zone_id to_zone_id different

  caught-KeepsStock :
      (m : Result (ProcessResult × Tables)) → Ensures KeepsStock m → Ensures KeepsStock (caught t m)
  caught-KeepsStock (ok r) e = e
  caught-KeepsStock (invalid x) e = Ensures-ok (dlq_result x, t) (λ p. refl)
  caught-KeepsStock crashed e = Ensures-crashed

  dispatch_moved :
      context.event_type ≡ "PRODUCT_MOVED"
      → process_product_moved session now context t ≡ dispatch session now context t
  unfolding dispatch
  dispatch_moved e = simp (e)

  dispatch_reserved :
      context.event_type ≡ "PRODUCT_RESERVED"
      → process_product_reserved session now context t ≡ dispatch session now context t
  unfolding dispatch
  dispatch_reserved e = simp (e)

  dispatch_released :
      context.event_type ≡ "PRODUCT_RELEASED"
      → process_product_released session now context t ≡ dispatch session now context t
  unfolding dispatch
  dispatch_released e = simp (e)

  dispatch-KeepsStock :
      IsCoherent t
      → OnlyShifts context.event_type
      → Ensures KeepsStock (dispatch session now context t)
  dispatch-KeepsStock h (inl e) = subst (Ensures KeepsStock) (dispatch_moved e) (moved-KeepsStock h)
  dispatch-KeepsStock h (inr (inl e)) =
      subst (Ensures KeepsStock) (dispatch_reserved e) reserved-KeepsStock
  dispatch-KeepsStock h (inr (inr e)) =
      subst (Ensures KeepsStock) (dispatch_released e) released-KeepsStock

-- Moves, reservations and releases neither create nor lose stock: from tables that agree, the
-- available and the reserved total of every product keep their sum, whatever `process` returns.
pub process-KeepsStock :
    (session : Session) (now : Instant) (context : EventContext) (t : Tables) (r : ProcessResult)
    (t' : Tables)
    → IsCoherent t
    → OnlyShifts context.event_type
    → process session now context t ≡ ok (r, t')
    → (p : String)
    → stored_available (t'.inventory_totals_by_product p)
        +ℤ stored_reserved (t'.inventory_totals_by_product p)
      ≡ stored_available (t.inventory_totals_by_product p)
        +ℤ stored_reserved (t.inventory_totals_by_product p)
unfolding process
process-KeepsStock session now context t r t' h shifts done =
    (Ensures-if (is_event_processed t context.event_id) (ok (duplicate_result, t))
        (caught t (dispatch session now context t))
        (λ _. Ensures-ok (duplicate_result, t) (λ p. refl))
        (λ _.
          caught-KeepsStock session now context t (dispatch session now context t)
            (dispatch-KeepsStock session now context t h shifts))).of
      (r, t') done
