-- ===== src/Processor/Rows.antt =====
-- The rows that the handlers of processor.py read, and its groupings into dicts.
use smart_warehouse_platform.Prelude.{
  String, ℤ, pos, ◌+ℤ◌, List, [], ◌∷◌, ◌++◌, Option, none, some, Dict, lookup, insert,
  if◌then◌else◌,
}
use smart_warehouse_platform.Prelude.Eq.{string_eq}
use smart_warehouse_platform.Domain.Value.{
  Value, null, int, text, array, Items, nil, cons, get, is_truthy,
}
use smart_warehouse_platform.Domain.Models.{
  Instant, InventoryKey, InventoryState, OrderItemData, composite_key, key_eq,
}
use smart_warehouse_platform.Domain.Result.{
  Result, ok, crashed, raise, empty_order, no_items, ◌>>=◌,
}
use smart_warehouse_platform.Repository.Schema.{Tables}
use smart_warehouse_platform.Repository.{get_inventory as select_inventory}
use smart_warehouse_platform.Processor.Checks.{require_text, require_positive}

-- `InventoryState(product_id=…, zone_id=…)`: the other fields have their defaults.
abbrev pub empty_inventory : Instant → InventoryKey → InventoryState
empty_inventory now key = record {
  product_id = key.product_id;
  zone_id = key.zone_id;
  available_quantity = pos 0;
  reserved_quantity = pos 0;
  last_event_ts = pos 0;
  supplier_id = null;
  updated_at = now;
}

unfoldable pub get_inventory : Instant → Tables → InventoryKey → InventoryState
get_inventory now t key = elim (select_inventory t key) [
  | none ↦ empty_inventory now key
  | some row ↦ row
]

-- The loop of `_normalize_items`.
unfoldable pub normalize_from : Items → Result (List OrderItemData)
normalize_from nil = ok []
normalize_from (cons item rest) = do
  product_id ← require_text (get "product_id" item) "items.product_id"
  zone_id ← require_text (get "zone_id" item) "items.zone_id"
  quantity ← require_positive (get "quantity" item) "items.quantity"
  items ← normalize_from rest
  ok (record { product_id = product_id; zone_id = zone_id; quantity = quantity } ∷ items)

-- A truthy value that is no list of dicts has no `item.get`, and fails as an attribute or a type
-- error.
unfoldable pub normalize_items : Value → Result (List OrderItemData)
unfolding normalize_from
normalize_items null = raise empty_order no_items
normalize_items (array nil) = raise empty_order no_items
normalize_items (array items) = normalize_from items
normalize_items (int n) = if is_truthy (int n) then crashed else raise empty_order no_items
normalize_items (text s) = if is_truthy (text s) then crashed else raise empty_order no_items

-- `defaultdict(int)` and `defaultdict(list)`: the value of a missing key.
abbrev pub or_zero : Option ℤ → ℤ
or_zero none = pos 0
or_zero (some n) = n

abbrev pub or_nil {ℓ} : {A : Type ℓ} → Option (List A) → List A
or_nil none = []
or_nil (some xs) = xs

abbrev pub item_key : OrderItemData → InventoryKey
item_key item = record { product_id = item.product_id; zone_id = item.zone_id }

unfoldable pub group_items_from : Dict InventoryKey ℤ → List OrderItemData → Dict InventoryKey ℤ
group_items_from grouped [] = grouped
group_items_from grouped (item ∷ items) =
    group_items_from
      (insert (item_key item) (or_zero (lookup (item_key item) grouped) +ℤ item.quantity) grouped)
      items

unfoldable pub group_items : List OrderItemData → Dict InventoryKey ℤ
unfolding group_items_from
group_items = group_items_from []

unfoldable pub rows_by_zone_from :
    Dict String (List InventoryState) → List InventoryState → Dict String (List InventoryState)
rows_by_zone_from grouped [] = grouped
rows_by_zone_from grouped (row ∷ rows) =
    rows_by_zone_from (insert row.zone_id (or_nil (lookup row.zone_id grouped) ++ row ∷ []) grouped)
      rows

unfoldable pub rows_by_zone : List InventoryState → Dict String (List InventoryState)
unfolding rows_by_zone_from
rows_by_zone = rows_by_zone_from []

-- `{(row.product_id, row.zone_id): row for row in rows}`
unfoldable pub rows_by_key_from :
    Dict InventoryKey InventoryState → List InventoryState → Dict InventoryKey InventoryState
rows_by_key_from by_key [] = by_key
rows_by_key_from by_key (row ∷ rows) = rows_by_key_from (insert (composite_key row) row by_key) rows

unfoldable pub rows_by_key : List InventoryState → Dict InventoryKey InventoryState
unfolding rows_by_key_from
rows_by_key = rows_by_key_from []
