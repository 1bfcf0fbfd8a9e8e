-- ===== src/Inventory/MoveShifts.antt =====
-- The handler of moves shifts the stock as its event means.
use smart_warehouse_platform.Prelude.{
  ℤ, pos, ◌+ℤ◌, ◌-ℤ◌, ◌≡◌, refl, false, [], ◌∷◌, none, ◌∙◌, sym, ap, int_laws, parts_of_eq,
  if◌then◌else◌,
}
use smart_warehouse_platform.Prelude.Eq.{◌==◌, string_eq, ne_of_beq}
use smart_warehouse_platform.Domain.Value.{get}
use smart_warehouse_platform.Domain.Models.{
  Instant, InventoryKey, InventoryState, EventContext, composite_key, key_eq,
}
use smart_warehouse_platform.Repository.Schema.{Tables}
use smart_warehouse_platform.Repository.Cql.{Session}
use smart_warehouse_platform.Processor.Checks.{require_text, require_positive, is_stale}
use smart_warehouse_platform.Processor.Handlers.{
  source_row, target_row, move_rows, process_product_moved,
}
use smart_warehouse_platform.Processor.Rows.{get_inventory}
use smart_warehouse_platform.Inventory.Coherence.{IsCoherent}
use smart_warehouse_platform.Inventory.Deltas.{available, reserved}
use smart_warehouse_platform.Inventory.Ensures.{
  Ensures, Ensures-if, Ensures-bind, Ensures-then, Ensures-reject_if, get_inventory-IsRead,
}
use smart_warehouse_platform.Inventory.Levels.{Overwrites}
use smart_warehouse_platform.Inventory.Effects.{Effect, amount, under, moved_effect}
use smart_warehouse_platform.Inventory.Shifts.{
  Shifts, stale-Shifts, apply_rows-Shifts, difference_cons, difference_one, if_none, under_key,
  require_text-eq-ok, require_positive-eq-ok,
}

module _ (session : Session) (now : Instant) (context : EventContext) (t : Tables)
    (h : IsCoherent t) where
  module _ (e : Effect) (n : ℤ) (from to : InventoryKey)
      (different : (from.zone_id == to.zone_id) ≡ false)
      (available_moves : (k : InventoryKey)
        → (if from == k then pos 0 -ℤ n else pos 0) +ℤ (if to == k then n else pos 0)
          ≡ e.more_available k)
      (reserved_stays : (k : InventoryKey) → pos 0 ≡ e.more_reserved k) where
    abbrev source : InventoryState
    source = get_inventory now t from

    abbrev target : InventoryState
    target = get_inventory now t to

    abbrev source' : InventoryState
    source' = source_row now context n source

    abbrev target' : InventoryState
    target' = target_row now context n source target

    source_key : composite_key source' ≡ from
    unfolding source_row
    source_key = (get_inventory-IsRead now t from h).0

    target_key : composite_key target' ≡ to
    unfolding target_row
    target_key = (get_inventory-IsRead now t to h).0

    move-Overwrites : Overwrites t (source ∷ target ∷ []) (source' ∷ target' ∷ [])
    unfolding source_row target_row
    move-Overwrites =
        let read = get_inventory-IsRead now t from h in
        let found = get_inventory-IsRead now t to h in
        (
          refl,
          read.1,
          (
            (λ e.
                ne_of_beq from.zone_id to.zone_id different
                  (ap (λ (k : InventoryKey). k.zone_id) (sym read.0 ∙ (sym e ∙ target_key)))),
            tt,
          ),
          (refl, found.1, tt, tt),
        )

    move_rows-Shifts :
        Ensures
          (Shifts session now context t e)
          (move_rows session now context t n from.zone_id to.zone_id source target)
    unfolding move_rows
    move_rows-Shifts =
        Ensures-if (is_stale context.occurred_at (source.last_event_ts ∷ target.last_event_ts ∷ []))
          _ _ (λ _. stale-Shifts session now context t e)
          (λ _. Ensures-then _ _ (
            apply_rows-Shifts session now context t e (source ∷ target ∷ [])
              (source' ∷ target' ∷ []) _ _ none move-Overwrites
              (λ k.
                difference_cons session now context t available source source' (target ∷ [])
                  (target' ∷ []) from k (pos 0 -ℤ n) source_key
                  (unfold source_row in omega int_laws)
                ∙ ap (λ x. (if from == k then pos 0 -ℤ n else pos 0) +ℤ x)
                    (difference_one session now context t available target target' to k n target_key
                      (unfold target_row in omega int_laws))
                ∙ available_moves k)
              (λ k.
                difference_cons session now context t reserved source source' (target ∷ [])
                  (target' ∷ []) from k (pos 0) source_key (unfold source_row in omega int_laws)
                ∙ ap (λ x. (if from == k then pos 0 else pos 0) +ℤ x)
                    (difference_one session now context t reserved target target' to k (pos 0)
                      target_key (unfold target_row in omega int_laws))
                ∙ omega (
                  int_laws,
                  parts_of_eq (if_none session now context t (from == k)),
                  parts_of_eq (if_none session now context t (to == k)),
                  parts_of_eq (reserved_stays k),
                ))))

  pub moved-Shifts :
      Ensures
        (Shifts session now context t (moved_effect context.event))
        (process_product_moved session now context t)
  unfolding process_product_moved
  moved-Shifts =
      let event = context.event in
      Ensures-bind (require_positive (get "quantity" event) "quantity") _ λ n positive.
        Ensures-bind (require_text (get "product_id" event) "product_id") _ λ p named_p.
          Ensures-bind (require_text (get "from_zone_id" event) "from_zone_id") _ λ a named_a.
            Ensures-bind (require_text (get "to_zone_id" event) "to_zone_id") _ λ b named_b.
              Ensures-reject_if _ _ _ _ λ different.
                let from : InventoryKey = record { product_id = p; zone_id = a } in
                let to : InventoryKey = record { product_id = p; zone_id = b } in
                let product = require_text-eq-ok (get "product_id" event) "product_id" named_p in
                let from_zone =
                  require_text-eq-ok (get "from_zone_id" event) "from_zone_id" named_a in
                let to_zone = require_text-eq-ok (get "to_zone_id" event) "to_zone_id" named_b in
                let read = require_positive-eq-ok (get "quantity" event) "quantity" positive in
                move_rows-Shifts (moved_effect event) n from to different
                  (λ k. λ i.
                    (under_key (get "product_id" event) (get "from_zone_id" event) from product
                          from_zone (pos 0 -ℤ n) k
                        ∙ ap
                            (λ x.
                              under (get "product_id" event) (get "from_zone_id" event)
                                (pos 0 -ℤ amount x) k)
                            (sym read))
                      i
                    +ℤ (under_key (get "product_id" event) (get "to_zone_id" event) to product
                            to_zone n k
                          ∙ ap
                              (λ x.
                                under (get "product_id" event) (get "to_zone_id" event) (amount x)
                                  k)
                              (sym read))
                        i)
                  (λ k. refl)
