-- ===== src/Inventory/Levels.antt =====
-- The abstract view of the inventory: what is available and what is reserved under each key. Writing
-- rows over those that were read shifts it by the differences.
use smart_warehouse_platform.Prelude.{
  ℤ, pos, ◌+ℤ◌, ◌-ℤ◌, ◌≡◌, List, [], ◌∷◌, ◌∙◌, sym, subst, int_laws, parts_of_eq, Bool-cases, inl,
  inr, if◌then◌else◌,
}
use smart_warehouse_platform.Prelude.Eq.{◌==◌, string_eq, eq_of_beq}
use smart_warehouse_platform.Domain.Models.{InventoryKey, InventoryState, composite_key, key_eq}
use smart_warehouse_platform.Repository.Schema.{Tables}
use smart_warehouse_platform.Repository.Partition.{value_of}
use smart_warehouse_platform.Inventory.Coherence.{IsStock, put_row, put_rows}
use smart_warehouse_platform.Inventory.Changes.{
  IsCurrent, IsFresh, Changes, IsCurrent-put_row, value_of-overwritten,
}

-- A quantity of the row of a key; a key without a row has 0.
abbrev pub level : (InventoryState → ℤ) → Tables → InventoryKey → ℤ
level m t k = value_of m (t.inventory_by_product_zone k.product_id k.zone_id)

-- The second list overwrites the first, row by row, under distinct keys.
abbrev pub Overwrites : Tables → List InventoryState → List InventoryState → Type 0
Overwrites t [] [] = Unit
Overwrites t (c ∷ cs) (u ∷ us) =
    (composite_key u ≡ composite_key c)
    × IsCurrent t c
    × IsFresh (composite_key c) us
    × Overwrites t cs us
Overwrites t _ _ = ⊥

abbrev pub AreStock : List InventoryState → Type 0
AreStock [] = Unit
AreStock (u ∷ us) = IsStock u × AreStock us

pub Overwrites-Changes :
    (t : Tables) (cs us : List InventoryState) → Overwrites t cs us → AreStock us → Changes t cs us
Overwrites-Changes t [] [] h stock = tt
Overwrites-Changes t (c ∷ cs) (u ∷ us) h stock =
    (h.0, h.1, stock.0, h.2, Overwrites-Changes t cs us h.3 stock.1)
Overwrites-Changes t [] (u ∷ us) h stock = h
Overwrites-Changes t (c ∷ cs) [] h stock = h

Overwrites-put_row :
    (u : InventoryState) (t : Tables) (cs us : List InventoryState)
    → IsFresh (composite_key u) us
    → Overwrites t cs us
    → Overwrites (put_row u t) cs us
Overwrites-put_row u t [] [] f h = tt
Overwrites-put_row u t (c ∷ cs) (v ∷ us) f h = (
  h.0,
  IsCurrent-put_row u c t (λ e. f.0 (h.0 ∙ sym e)) h.1,
  h.2,
  Overwrites-put_row u t cs us f.1 h.3,
)
Overwrites-put_row u t [] (v ∷ us) f h = h
Overwrites-put_row u t (c ∷ cs) [] f h = h

-- The change of a quantity under one key.
abbrev pub difference :
    (InventoryState → ℤ) → InventoryKey → List InventoryState → List InventoryState → ℤ
difference m k (c ∷ cs) (u ∷ us) =
    (if composite_key u == k then m u -ℤ m c else pos 0) +ℤ difference m k cs us
difference m k _ _ = pos 0

module _ (m : InventoryState → ℤ)
    (zero_row : (c : InventoryState)
      → c.available_quantity ≡ pos 0
      → c.reserved_quantity ≡ pos 0
      → m c ≡ pos 0)
    (k : InventoryKey) where
  level-put_row :
      (t : Tables) (c u : InventoryState)
      → composite_key u ≡ composite_key c
      → IsCurrent t c
      → level m (put_row u t) k
        ≡ level m t k +ℤ (if composite_key u == k then m u -ℤ m c else pos 0)
  unfolding put_row
  level-put_row t c u same current = elim (Bool-cases (composite_key u == k)) [
    | inl e ↦
        let old =
          subst (λ q. level m t q ≡ m c) (eq_of_beq (composite_key u) k e)
            (value_of-overwritten m zero_row t c u same current) in
        rw e (omega (int_laws, parts_of_eq old))
    | inr e ↦ rw e (omega int_laws)
  ]

  pub level-put_rows :
      (t : Tables) (cs us : List InventoryState)
      → Overwrites t cs us
      → level m (put_rows us t) k ≡ level m t k +ℤ difference m k cs us
  unfolding put_rows
  level-put_rows t [] [] h = omega int_laws
  level-put_rows t (c ∷ cs) (u ∷ us) h = omega (
    int_laws,
    parts_of_eq (level-put_row t c u h.0 h.1),
    parts_of_eq (
        level-put_rows (put_row u t) cs us
          (Overwrites-put_row u t cs us (subst (λ q. IsFresh q us) (sym h.0) h.2) h.3)),
  )
  level-put_rows t [] (u ∷ us) h = absurd h
  level-put_rows t (c ∷ cs) [] h = absurd h
