-- ===== src/Inventory/OrderLines.antt =====
-- The lines of an order: grouped by key, and as the event has them.
use smart_warehouse_platform.Prelude.{
  ℤ, ◌≡◌, refl, List, [], ◌∷◌, int_laws, ◌∙◌, sym, ap, Dict, lookup, if◌then◌else◌, pos, ◌+ℤ◌, ◌-ℤ◌,
  parts_of_eq, Bool-cases, inl, inr, insert,
}
use smart_warehouse_platform.Prelude.Eq.{Eq, ◌==◌, string_eq, eq_of_beq}
use smart_warehouse_platform.Domain.Value.{
  get, Value, null, int, text, array, Items, nil, cons, is_truthy,
}
use smart_warehouse_platform.Domain.Models.{InventoryKey, OrderItemData, key_eq}
use smart_warehouse_platform.Domain.Result.{raise, crashed, empty_order, no_items}
use smart_warehouse_platform.Processor.Checks.{require_text, require_positive}
use smart_warehouse_platform.Processor.Rows.{
  normalize_items, normalize_from, group_items_from, item_key, or_zero,
}
use smart_warehouse_platform.Inventory.Ensures.{
  Ensures, Ensures-ok, Ensures-if, Ensures-bind, Ensures-raise, Ensures-crashed,
}
use smart_warehouse_platform.Inventory.Effects.{
  amount, under, event_lines, event_items, order_lines,
}
use smart_warehouse_platform.Inventory.Shifts.{
  under_key, require_text-eq-ok, require_positive-eq-ok,
}

unfoldable pub same : ℤ → ℤ
same n = n

unfoldable pub less : ℤ → ℤ
less n = pos 0 -ℤ n

module _ {K : Type 0} ⦃e : Eq K⦄ where
  -- The quantity of a key in the grouped lines of an order, through `f`.
  abbrev pub grouped_at : (ℤ → ℤ) → Dict K ℤ → K → ℤ
  grouped_at f [] k = pos 0
  grouped_at f ((j, n) ∷ d) k = (if j == k then f n else pos 0) +ℤ grouped_at f d k

  grouped_at-insert :
      (j k : K) (v : ℤ) (d : Dict K ℤ)
      → grouped_at same (insert j v d) k +ℤ (if j == k then or_zero (lookup j d) else pos 0)
        ≡ grouped_at same d k +ℤ (if j == k then v else pos 0)
  unfolding same
  grouped_at-insert j k v [] = elim (Bool-cases (j == k)) [
    | inl b ↦ rw b (omega int_laws)
    | inr b ↦ rw b (omega int_laws)
  ]
  grouped_at-insert j k v ((i, m) ∷ d) = elim (Bool-cases (i == j)) [
    | inl found ↦
        let agree : (i == k) ≡ (j == k) = ap (λ x. x == k) (eq_of_beq i j found) in
        elim (Bool-cases (j == k)) [
          | inl b ↦ rw (found, b, agree ∙ b) (omega int_laws)
          | inr b ↦ rw (found, b, agree ∙ b) (omega int_laws)
        ]
    | inr other ↦ rw other (omega (int_laws, parts_of_eq (grouped_at-insert j k v d)))
  ]

  grouped_at-add :
      (j k : K) (n : ℤ) (d : Dict K ℤ)
      → grouped_at same (insert j (or_zero (lookup j d) +ℤ n) d) k
        ≡ grouped_at same d k +ℤ (if j == k then n else pos 0)
  grouped_at-add j k n d =
      let written = grouped_at-insert j k (or_zero (lookup j d) +ℤ n) d in
      elim (Bool-cases (j == k)) [
        | inl b ↦ rw b (omega (int_laws, parts_of_eq (rw b at written)))
        | inr b ↦ rw b (omega (int_laws, parts_of_eq (rw b at written)))
      ]

pub grouped_at-group_items :
    (items : List OrderItemData) (d : Dict InventoryKey ℤ) (k : InventoryKey)
    → grouped_at same (group_items_from d items) k ≡ grouped_at same d k +ℤ order_lines items k
unfolding group_items_from
grouped_at-group_items [] d k = omega int_laws
grouped_at-group_items (item ∷ items) d k = omega (
  int_laws,
  parts_of_eq (
      grouped_at-group_items items
        (insert (item_key item) (or_zero (lookup (item_key item) d) +ℤ item.quantity) d) k),
  parts_of_eq (grouped_at-add (item_key item) k item.quantity d),
)

pub grouped_at-less :
    (d : Dict InventoryKey ℤ) (k : InventoryKey)
    → grouped_at less d k ≡ pos 0 -ℤ grouped_at same d k
unfolding same less
grouped_at-less [] k = omega int_laws
grouped_at-less ((j, n) ∷ d) k = elim (Bool-cases (j == k)) [
  | inl e ↦ rw e (omega (int_laws, parts_of_eq (grouped_at-less d k)))
  | inr e ↦ rw e (omega (int_laws, parts_of_eq (grouped_at-less d k)))
]

-- The lines that the handler reads are those of the event.
normalize_from-lines :
    (items : Items) (k : InventoryKey)
    → Ensures (λ read. order_lines read k ≡ event_lines items k) (normalize_from items)
unfolding normalize_from
normalize_from-lines nil k = Ensures-ok [] refl
normalize_from-lines (cons item rest) k =
    Ensures-bind (require_text (get "product_id" item) "items.product_id") _ λ p named_p.
      Ensures-bind (require_text (get "zone_id" item) "items.zone_id") _ λ z named_z.
        Ensures-bind (require_positive (get "quantity" item) "items.quantity") _ λ n positive.
          Ensures-bind (normalize_from rest) _ λ items done.
            let key : InventoryKey = record { product_id = p; zone_id = z } in
            Ensures-ok _ (λ i.
              (under_key (get "product_id" item) (get "zone_id" item) key
                    (require_text-eq-ok (get "product_id" item) "items.product_id" named_p)
                    (require_text-eq-ok (get "zone_id" item) "items.zone_id" named_z) n k
                  ∙ ap (λ x. under (get "product_id" item) (get "zone_id" item) (amount x) k)
                      (sym
                        (require_positive-eq-ok (get "quantity" item) "items.quantity" positive)))
                i
              +ℤ (normalize_from-lines rest k).of items done i)

pub normalize_items-lines :
    (v : Value) (k : InventoryKey)
    → Ensures (λ read. order_lines read k ≡ event_items v k) (normalize_items v)
unfolding normalize_items
normalize_items-lines null k = Ensures-raise _ _
normalize_items-lines (array nil) k = Ensures-raise _ _
normalize_items-lines (array (cons item rest)) k = normalize_from-lines (cons item rest) k
normalize_items-lines (int n) k =
    Ensures-if (is_truthy (int n)) crashed (raise empty_order no_items) (λ _. Ensures-crashed)
      (λ _. Ensures-raise empty_order no_items)
normalize_items-lines (text s) k =
    Ensures-if (is_truthy (text s)) crashed (raise empty_order no_items) (λ _. Ensures-crashed)
      (λ _. Ensures-raise empty_order no_items)
