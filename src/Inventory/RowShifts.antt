-- ===== src/Inventory/RowShifts.antt =====
-- The handlers of one row shift the stock as their events mean.
use smart_warehouse_platform.Prelude.{
  ℤ, pos, ◌-ℤ◌, ◌≡◌, refl, ◌∙◌, sym, ap, subst, int_laws, Bool-cases, inl, inr, if◌then◌else◌,
}
use smart_warehouse_platform.Prelude.Eq.{◌==◌, string_eq, eq_of_beq}
use smart_warehouse_platform.Domain.Value.{get}
use smart_warehouse_platform.Domain.Models.{Instant, InventoryKey, EventContext, key_eq}
use smart_warehouse_platform.Repository.Schema.{Tables}
use smart_warehouse_platform.Repository.Cql.{Session}
use smart_warehouse_platform.Processor.Checks.{require_positive, require_non_negative}
use smart_warehouse_platform.Processor.Handlers.{
  require_key, receive_row, ship_row, reserve_row, release_row, count_row, process_product_received,
  process_product_shipped, process_product_reserved, process_product_released,
  process_inventory_counted,
}
use smart_warehouse_platform.Processor.Rows.{get_inventory}
use smart_warehouse_platform.Inventory.Coherence.{IsCoherent}
use smart_warehouse_platform.Inventory.Deltas.{available}
use smart_warehouse_platform.Inventory.Ensures.{
  Ensures, Ensures-bind, Ensures-then, get_inventory-IsRead,
}
use smart_warehouse_platform.Inventory.Levels.{level}
use smart_warehouse_platform.Inventory.Effects.{
  received_effect, shipped_effect, reserved_effect, released_effect, counted_effect,
}
use smart_warehouse_platform.Inventory.Changes.{value_of-current}
use smart_warehouse_platform.Inventory.Shifts.{
  Shifts, apply_row-Shifts, one_row, if_none, under_event, require_positive-eq-ok,
  require_non_negative-eq-ok,
}

module _ (session : Session) (now : Instant) (context : EventContext) (t : Tables)
    (h : IsCoherent t) where
  pub received-Shifts :
      Ensures
        (Shifts session now context t (received_effect context.event))
        (process_product_received session now context t)
  unfolding process_product_received
  received-Shifts =
      Ensures-bind (require_positive (get "quantity" context.event) "quantity") _ λ n positive.
        let read = require_positive-eq-ok (get "quantity" context.event) "quantity" positive in
        Ensures-bind (require_key context) _ λ key found. one_row session now context t h _ key _ (
          apply_row-Shifts session now context t h _ key
            (receive_row now context n (get_inventory now t key)) n (pos 0)
            (unfold receive_row in refl) (unfold receive_row in omega int_laws)
            (unfold receive_row in omega int_laws)
            (under_event session now context t key found _ n read (λ x. x))
            (λ k. if_none session now context t (key == k)))

  pub shipped-Shifts :
      Ensures
        (Shifts session now context t (shipped_effect context.event))
        (process_product_shipped session now context t)
  unfolding process_product_shipped
  shipped-Shifts =
      Ensures-bind (require_positive (get "quantity" context.event) "quantity") _ λ n positive.
        let read = require_positive-eq-ok (get "quantity" context.event) "quantity" positive in
        Ensures-bind (require_key context) _ λ key found. one_row session now context t h _ key _ (
          Ensures-then _ _ (
            apply_row-Shifts session now context t h _ key
              (ship_row now context n (get_inventory now t key)) (pos 0 -ℤ n) (pos 0)
              (unfold ship_row in refl) (unfold ship_row in omega int_laws)
              (unfold ship_row in omega int_laws)
              (under_event session now context t key found _ n read (λ x. pos 0 -ℤ x))
              (λ k. if_none session now context t (key == k))))

  pub reserved-Shifts :
      Ensures
        (Shifts session now context t (reserved_effect context.event))
        (process_product_reserved session now context t)
  unfolding process_product_reserved
  reserved-Shifts =
      Ensures-bind (require_positive (get "quantity" context.event) "quantity") _ λ n positive.
        let read = require_positive-eq-ok (get "quantity" context.event) "quantity" positive in
        Ensures-bind (require_key context) _ λ key found. one_row session now context t h _ key _ (
          Ensures-then _ _ (
            apply_row-Shifts session now context t h _ key
              (reserve_row now context n (get_inventory now t key)) (pos 0 -ℤ n) n
              (unfold reserve_row in refl) (unfold reserve_row in omega int_laws)
              (unfold reserve_row in omega int_laws)
              (under_event session now context t key found _ n read (λ x. pos 0 -ℤ x))
              (under_event session now context t key found _ n read (λ x. x))))

  pub released-Shifts :
      Ensures
        (Shifts session now context t (released_effect context.event))
        (process_product_released session now context t)
  unfolding process_product_released
  released-Shifts =
      Ensures-bind (require_positive (get "quantity" context.event) "quantity") _ λ n positive.
        let read = require_positive-eq-ok (get "quantity" context.event) "quantity" positive in
        Ensures-bind (require_key context) _ λ key found. one_row session now context t h _ key _ (
          Ensures-then _ _ (
            apply_row-Shifts session now context t h _ key
              (release_row now context n (get_inventory now t key)) n (pos 0 -ℤ n)
              (unfold release_row in refl) (unfold release_row in omega int_laws)
              (unfold release_row in omega int_laws)
              (under_event session now context t key found _ n read (λ x. x))
              (under_event session now context t key found _ n read (λ x. pos 0 -ℤ x))))

  level-current : (key : InventoryKey) → level available t key ≡ available (get_inventory now t key)
  level-current key =
      let read = get_inventory-IsRead now t key h in
      subst (λ k. level available t k ≡ available (get_inventory now t key)) read.0
        (value_of-current available (λ c x y. x) t (get_inventory now t key) read.1)

  counted_from :
      (key k : InventoryKey) (n : ℤ)
      → (if key == k then n -ℤ available (get_inventory now t key) else pos 0)
        ≡ (if key == k then n -ℤ level available t k else pos 0)
  counted_from key k n = elim (Bool-cases (key == k)) [
    | inl e ↦ rw e (
        ap (λ x. n -ℤ x)
          (sym (level-current key) ∙ ap (λ q. level available t q) (eq_of_beq key k e)))
    | inr e ↦ rw e refl
  ]

  pub counted-Shifts :
      Ensures
        (Shifts session now context t (counted_effect context.event t))
        (process_inventory_counted session now context t)
  unfolding process_inventory_counted
  counted-Shifts =
      Ensures-bind (require_non_negative (get "counted_quantity" context.event) "counted_quantity")
        _
        λ n nonneg.
          let read =
            require_non_negative-eq-ok (get "counted_quantity" context.event) "counted_quantity"
              nonneg in
          Ensures-bind (require_key context) _ λ key found.
            one_row session now context t h _ key _ (
              apply_row-Shifts session now context t h _ key
                (count_row now context n (get_inventory now t key))
                (n -ℤ available (get_inventory now t key)) (pos 0) (unfold count_row in refl)
                (unfold count_row in refl) (unfold count_row in omega int_laws)
                (λ k.
                  counted_from key k n
                  ∙ under_event session now context t key found _ n read
                      (λ x. x -ℤ level available t k) k)
                (λ k. if_none session now context t (key == k)))
