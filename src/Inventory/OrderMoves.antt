-- ===== src/Inventory/OrderMoves.antt =====
-- How the lines of an order move the stock of its rows.
use smart_warehouse_platform.Prelude.{
  String, ℤ, ◌≡◌, refl, List, [], ◌∷◌, int_laws, ◌∙◌, ap, Dict, if◌then◌else◌, pos, ◌+ℤ◌, ◌-ℤ◌,
  parts_of_eq, Bool-cases, inl, inr, Option,
}
use smart_warehouse_platform.Prelude.Eq.{◌==◌, string_eq}
use smart_warehouse_platform.Domain.Models.{
  Instant, InventoryKey, InventoryState, OrderItemData, OrderState, EventContext, key_eq,
}
use smart_warehouse_platform.Repository.Schema.{Tables}
use smart_warehouse_platform.Repository.Cql.{Session}
use smart_warehouse_platform.Processor.Rows.{get_inventory, group_items}
use smart_warehouse_platform.Processor.Handlers.{reserve_row, apply_rows}
use smart_warehouse_platform.Processor.Orders.{
  complete_row, reserve_order_rows, complete_order_rows,
}
use smart_warehouse_platform.Inventory.Coherence.{IsCoherent}
use smart_warehouse_platform.Inventory.Ensures.{
  Ensures, Ensures-ok, Ensures-bind, get_inventory-IsRead, Ensures-then,
}
use smart_warehouse_platform.Inventory.Levels.{difference}
use smart_warehouse_platform.Inventory.OrderRows.{OrderRows, OrderRows-Overwrites}
use smart_warehouse_platform.Inventory.Items.{IsDict-group_items_from}
use smart_warehouse_platform.Inventory.Deltas.{available, reserved}
use smart_warehouse_platform.Inventory.Effects.{Effect, order_lines}
use smart_warehouse_platform.Inventory.Shifts.{Shifts, apply_rows-Shifts, difference_cons}
use smart_warehouse_platform.Inventory.OrderLines.{
  same, less, grouped_at, grouped_at-less, grouped_at-group_items,
}

pub zero : ℤ → ℤ
zero n = pos 0

module _ (f g : ℤ → ℤ) where
  -- A row that is written with `f` of the quantity more available, and `g` of it more reserved.
  abbrev MovesBy : ℤ → InventoryState → InventoryState → Type 0
  MovesBy n c u = (available u -ℤ available c ≡ f n) × (reserved u -ℤ reserved c ≡ g n)

module _ (session : Session) (now : Instant) (context : EventContext) (t : Tables) where
  module _ (h : IsCoherent t) (Q : ℤ → InventoryState → InventoryState → Type 0)
      (m : InventoryState → ℤ) (f : ℤ → ℤ)
      (moves : (n : ℤ) (c u : InventoryState) → Q n c u → m u -ℤ m c ≡ f n) (k : InventoryKey) where
    difference-grouped_at :
        (d : Dict InventoryKey ℤ) (cs us : List InventoryState)
        → OrderRows now t Q d cs us
        → difference m k cs us ≡ grouped_at f d k
    difference-grouped_at [] [] [] rows = refl
    difference-grouped_at ((j, n) ∷ d) (c ∷ cs) (u ∷ us) rows =
        difference_cons session now context t m c u cs us j k (f n)
          (rows.1 ∙ (get_inventory-IsRead now t j h).0)
          (ap (λ x. m u -ℤ m x) rows.0 ∙ moves n (get_inventory now t j) u rows.2)
        ∙ ap (λ x. (if j == k then f n else pos 0) +ℤ x) (difference-grouped_at d cs us rows.3)
    difference-grouped_at [] (c ∷ cs) us rows = absurd rows
    difference-grouped_at [] [] (u ∷ us) rows = absurd rows
    difference-grouped_at ((j, n) ∷ d) [] us rows = absurd rows
    difference-grouped_at ((j, n) ∷ d) (c ∷ cs) [] rows = absurd rows

  pub reserve_order_rows-MovesBy :
      (d : Dict InventoryKey ℤ)
      → Ensures
          (λ rows. OrderRows now t (MovesBy less same) d rows.0 rows.1)
          (reserve_order_rows now context t d)
  unfolding reserve_order_rows reserve_row less same
  reserve_order_rows-MovesBy [] = Ensures-ok ([], []) tt
  reserve_order_rows-MovesBy ((key, n) ∷ rest) =
      let current = get_inventory now t key in
      Ensures-then _ _ (
        Ensures-bind (reserve_order_rows now context t rest) _ λ rows done.
          Ensures-ok (current ∷ rows.0, reserve_row now context n current ∷ rows.1)
            (
              refl,
              refl,
              (omega int_laws, omega int_laws),
              (reserve_order_rows-MovesBy rest).of rows done,
            ))

  pub complete_order_rows-MovesBy :
      (d : Dict InventoryKey ℤ)
      → Ensures
          (λ rows. OrderRows now t (MovesBy zero less) d rows.0 rows.1)
          (complete_order_rows now context t d)
  unfolding complete_order_rows complete_row less zero
  complete_order_rows-MovesBy [] = Ensures-ok ([], []) tt
  complete_order_rows-MovesBy ((key, n) ∷ rest) =
      let current = get_inventory now t key in
      Ensures-then _ _ (
        Ensures-bind (complete_order_rows now context t rest) _ λ rows done.
          Ensures-ok (current ∷ rows.0, complete_row now context n current ∷ rows.1)
            (
              refl,
              refl,
              (omega int_laws, omega int_laws),
              (complete_order_rows-MovesBy rest).of rows done,
            ))

  module _ (h : IsCoherent t) (e : Effect) (f g : ℤ → ℤ) (items : List OrderItemData)
      (made_available : (k : InventoryKey)
        → grouped_at f (group_items items) k ≡ e.more_available k)
      (made_reserved : (k : InventoryKey)
        → grouped_at g (group_items items) k ≡ e.more_reserved k) where
    pub collected-Shifts :
        (cs us : List InventoryState) (uz cz : Dict String (List InventoryState))
        (order : Option OrderState)
        → OrderRows now t (MovesBy f g) (group_items items) cs us
        → Ensures
            (Shifts session now context t e)
            (apply_rows session now context t cs us uz cz order)
    collected-Shifts cs us uz cz order rows =
        apply_rows-Shifts session now context t e cs us uz cz order
          (OrderRows-Overwrites now t (MovesBy f g) h (group_items items) cs us
            (unfold group_items in IsDict-group_items_from [] items tt) rows)
          (λ k.
            difference-grouped_at h (MovesBy f g) available f (λ n c u q. q.0) k (group_items items)
              cs us rows
            ∙ made_available k)
          (λ k.
            difference-grouped_at h (MovesBy f g) reserved g (λ n c u q. q.1) k (group_items items)
              cs us rows
            ∙ made_reserved k)

pub grouped_lines :
    (items : List OrderItemData) (k : InventoryKey)
    → grouped_at same (group_items items) k ≡ order_lines items k
unfolding group_items
grouped_lines items k = grouped_at-group_items items [] k ∙ omega int_laws

pub less_lines :
    (items : List OrderItemData) (k : InventoryKey)
    → grouped_at less (group_items items) k ≡ pos 0 -ℤ order_lines items k
less_lines items k =
    grouped_at-less (group_items items) k ∙ ap (λ n. pos 0 -ℤ n) (grouped_lines items k)

pub grouped_at-zero : (d : Dict InventoryKey ℤ) (k : InventoryKey) → grouped_at zero d k ≡ pos 0
unfolding zero
grouped_at-zero [] k = refl
grouped_at-zero ((j, n) ∷ d) k = elim (Bool-cases (j == k)) [
  | inl b ↦ rw b (omega (int_laws, parts_of_eq (grouped_at-zero d k)))
  | inr b ↦ rw b (omega (int_laws, parts_of_eq (grouped_at-zero d k)))
]
