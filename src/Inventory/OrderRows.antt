-- ===== src/Inventory/OrderRows.antt =====
-- The rows that the loops over an order's keys collect.
use smart_warehouse_platform.Prelude.{
  ℤ, ◌≡◌, List, [], ◌∷◌, none, arith, ◌∙◌, sym, ap, subst, Dict, lookup, IsDict,
}
use smart_warehouse_platform.Prelude.Eq.{string_eq}
use smart_warehouse_platform.Domain.Models.{
  Instant, InventoryKey, InventoryState, composite_key, key_eq, key_beq_iff,
}
use smart_warehouse_platform.Repository.Schema.{Tables}
use smart_warehouse_platform.Processor.Rows.{get_inventory}
use smart_warehouse_platform.Inventory.Coherence.{IsCoherent, IsStock}
use smart_warehouse_platform.Inventory.Changes.{IsFresh, IsCurrent}
use smart_warehouse_platform.Inventory.Ensures.{get_inventory-IsRead}
use smart_warehouse_platform.Inventory.Levels.{Overwrites, AreStock}

module _ (now : Instant) (t : Tables) (Q : ℤ → InventoryState → InventoryState → Type 0) where
  -- One row before and one after for each key, in step, which `Q` relates for the key's quantity.
  abbrev pub OrderRows : Dict InventoryKey ℤ → List InventoryState → List InventoryState → Type 0
  OrderRows [] [] [] = Unit
  OrderRows ((k, n) ∷ d) (c ∷ cs) (u ∷ us) =
      (c ≡ get_inventory now t k)
      × (composite_key u ≡ composite_key (get_inventory now t k))
      × Q n (get_inventory now t k) u
      × OrderRows d cs us
  OrderRows _ _ _ = ⊥

  module _ (h : IsCoherent t) where
    OrderRows-IsFresh :
        (k : InventoryKey) (d : Dict InventoryKey ℤ) (cs us : List InventoryState)
        → lookup k d ≡ none
        → OrderRows d cs us
        → IsFresh k us
    OrderRows-IsFresh k [] [] [] new rows = tt
    OrderRows-IsFresh k ((j, n) ∷ d) (c ∷ cs) (u ∷ us) new rows = (
      (λ e.
          let same : j ≡ k = sym (get_inventory-IsRead now t j h).0 ∙ (sym rows.1 ∙ e) in
          absurd (ground (arith, new, same, key_beq_iff j k))),
      OrderRows-IsFresh k d cs us (ground (arith, new)) rows.3,
    )
    OrderRows-IsFresh k [] (c ∷ cs) us new rows = absurd rows
    OrderRows-IsFresh k [] [] (u ∷ us) new rows = absurd rows
    OrderRows-IsFresh k ((j, n) ∷ d) [] us new rows = absurd rows
    OrderRows-IsFresh k ((j, n) ∷ d) (c ∷ cs) [] new rows = absurd rows

    pub OrderRows-Overwrites :
        (d : Dict InventoryKey ℤ) (cs us : List InventoryState)
        → IsDict d
        → OrderRows d cs us
        → Overwrites t cs us
    OrderRows-Overwrites [] [] [] q rows = tt
    OrderRows-Overwrites ((k, n) ∷ d) (c ∷ cs) (u ∷ us) q rows =
        let read = get_inventory-IsRead now t k h in
        let key : composite_key c ≡ k = ap composite_key rows.0 ∙ read.0 in
        (
          rows.1 ∙ ap composite_key (sym rows.0),
          subst (λ x. IsCurrent t x) (sym rows.0) read.1,
          subst (λ x. IsFresh x us) (sym key) (OrderRows-IsFresh k d cs us q.0 rows.3),
          OrderRows-Overwrites d cs us q.1 rows.3,
        )
    OrderRows-Overwrites [] (c ∷ cs) us q rows = absurd rows
    OrderRows-Overwrites [] [] (u ∷ us) q rows = absurd rows
    OrderRows-Overwrites ((k, n) ∷ d) [] us q rows = absurd rows
    OrderRows-Overwrites ((k, n) ∷ d) (c ∷ cs) [] q rows = absurd rows

abbrev pub StaysStock : ℤ → InventoryState → InventoryState → Type 0
StaysStock n c u = IsStock u

pub OrderRows-AreStock :
    (now : Instant) (t : Tables) (d : Dict InventoryKey ℤ) (cs us : List InventoryState)
    → OrderRows now t StaysStock d cs us
    → AreStock us
OrderRows-AreStock now t [] [] [] rows = tt
OrderRows-AreStock now t ((k, n) ∷ d) (c ∷ cs) (u ∷ us) rows =
    (rows.2, OrderRows-AreStock now t d cs us rows.3)
OrderRows-AreStock now t [] (c ∷ cs) us rows = absurd rows
OrderRows-AreStock now t [] [] (u ∷ us) rows = absurd rows
OrderRows-AreStock now t ((k, n) ∷ d) [] us rows = absurd rows
OrderRows-AreStock now t ((k, n) ∷ d) (c ∷ cs) [] rows = absurd rows
