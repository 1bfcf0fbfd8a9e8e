-- ===== src/Inventory/Items.antt =====
-- The items of an order: grouped by key, with positive quantities.
use smart_warehouse_platform.Prelude.{
  ℤ, pos, ◌+ℤ◌, ◌≤ℤ◌, List, [], ◌∷◌, arith, int_laws, Dict, lookup, insert, IsDict, IsDict-insert,
}
use smart_warehouse_platform.Prelude.Eq.{string_eq}
use smart_warehouse_platform.Domain.Value.{
  Value, null, int, text, array, Items, nil, cons, get, is_truthy,
}
use smart_warehouse_platform.Domain.Models.{InventoryKey, OrderItemData, key_eq}
use smart_warehouse_platform.Domain.Result.{raise, crashed, empty_order, no_items}
use smart_warehouse_platform.Processor.Checks.{require_text, require_positive}
use smart_warehouse_platform.Processor.Rows.{
  group_items_from, item_key, or_zero, normalize_from, normalize_items,
}
use smart_warehouse_platform.Inventory.Ensures.{
  Ensures, Ensures-ok, Ensures-if, Ensures-bind, Ensures-raise, Ensures-crashed,
  require_positive-pos,
}

-- Grouping gives a dict: every key once.
pub IsDict-group_items_from :
    (grouped : Dict InventoryKey ℤ) (items : List OrderItemData)
    → IsDict grouped
    → IsDict (group_items_from grouped items)
unfolding group_items_from
IsDict-group_items_from grouped [] h = h
IsDict-group_items_from grouped (item ∷ items) h =
    let count = or_zero (lookup (item_key item) grouped) +ℤ item.quantity in
    IsDict-group_items_from (insert (item_key item) count grouped) items
      (IsDict-insert (item_key item) count grouped h)

abbrev pub AreNonneg : Dict InventoryKey ℤ → Type 0
AreNonneg [] = Unit
AreNonneg ((k, n) ∷ d) = (pos 0 ≤ℤ n) × AreNonneg d

abbrev pub ArePositive : List OrderItemData → Type 0
ArePositive [] = Unit
ArePositive (item ∷ items) = (pos 1 ≤ℤ item.quantity) × ArePositive items

lookup_nonneg :
    (k : InventoryKey) (d : Dict InventoryKey ℤ) → AreNonneg d → pos 0 ≤ℤ or_zero (lookup k d)
lookup_nonneg k [] h = omega arith
lookup_nonneg k ((j, n) ∷ d) h = ground (arith, lookup_nonneg k d h.1)

AreNonneg-insert :
    (k : InventoryKey) (n : ℤ) (d : Dict InventoryKey ℤ)
    → pos 0 ≤ℤ n
    → AreNonneg d
    → AreNonneg (insert k n d)
AreNonneg-insert k n [] p h = (p, tt)
AreNonneg-insert k n ((j, m) ∷ d) p h = ground (arith, AreNonneg-insert k n d p h.1)

pub AreNonneg-group_items_from :
    (grouped : Dict InventoryKey ℤ) (items : List OrderItemData)
    → AreNonneg grouped
    → ArePositive items
    → AreNonneg (group_items_from grouped items)
unfolding group_items_from
AreNonneg-group_items_from grouped [] h p = h
AreNonneg-group_items_from grouped (item ∷ items) h p =
    let count = or_zero (lookup (item_key item) grouped) +ℤ item.quantity in
    AreNonneg-group_items_from (insert (item_key item) count grouped) items
      (AreNonneg-insert (item_key item) count grouped
        (omega (int_laws, lookup_nonneg (item_key item) grouped h, p.0)) h)
      p.1

-- The items that pass `_normalize_items` have positive quantities.
normalize_from-ArePositive : (items : Items) → Ensures ArePositive (normalize_from items)
unfolding normalize_from
normalize_from-ArePositive nil = Ensures-ok [] tt
normalize_from-ArePositive (cons item rest) =
    Ensures-bind (require_text (get "product_id" item) "items.product_id") _ λ product_id _.
      Ensures-bind (require_text (get "zone_id" item) "items.zone_id") _ λ zone_id _.
        Ensures-bind (require_positive (get "quantity" item) "items.quantity") _
          λ quantity positive. Ensures-bind (normalize_from rest) _ λ items done. Ensures-ok _ (
            require_positive-pos (get "quantity" item) "items.quantity" positive,
            (normalize_from-ArePositive rest).of items done,
          )

pub normalize_items-ArePositive : (v : Value) → Ensures ArePositive (normalize_items v)
unfolding normalize_items
normalize_items-ArePositive null = Ensures-raise _ _
normalize_items-ArePositive (array nil) = Ensures-raise _ _
normalize_items-ArePositive (array (cons item rest)) = normalize_from-ArePositive (cons item rest)
normalize_items-ArePositive (int n) =
    Ensures-if (is_truthy (int n)) crashed (raise empty_order no_items) (λ _. Ensures-crashed)
      (λ _. Ensures-raise empty_order no_items)
normalize_items-ArePositive (text s) =
    Ensures-if (is_truthy (text s)) crashed (raise empty_order no_items) (λ _. Ensures-crashed)
      (λ _. Ensures-raise empty_order no_items)
