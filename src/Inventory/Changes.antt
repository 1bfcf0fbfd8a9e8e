-- ===== src/Inventory/Changes.antt =====
-- What a handler changes: the rows that it read and the rows that it writes, in step. The sum of a
-- quantity over a partition moves by exactly the difference of the two.
use text.Mathlib.TextEquality.{eq_iff}
use smart_warehouse_platform.Prelude.{
  String, ℤ, pos, ◌+ℤ◌, ◌-ℤ◌, ◌≡◌, ◌≢◌, ◌⊎◌, inl, inr, refl, List, [], ◌∷◌, none, some, arith,
  int_laws, parts_of_eq, Bool-cases, ◌∙◌, sym, ap, subst, if◌then◌else◌,
}
use smart_warehouse_platform.Prelude.Eq.{◌==◌, string_eq, eq_of_beq}
use smart_warehouse_platform.Domain.Models.{InventoryKey, InventoryState, composite_key}
use smart_warehouse_platform.Repository.Schema.{Tables}
use smart_warehouse_platform.Repository.Cql.{find_row, upsert_row}
use smart_warehouse_platform.Repository.Partition.{IsDistinct, sum_by, value_of, sum_by-upsert_row}
use smart_warehouse_platform.Inventory.Coherence.{
  IsCoherent, IsStock, put_row, put_rows, put_row-IsCoherent, zone_column, product_column,
}

-- The row that a key has, or an empty one if it has none.
abbrev pub IsCurrent : Tables → InventoryState → Type 0
IsCurrent t c =
    (t.inventory_by_product_zone c.product_id c.zone_id ≡ some c)
    ⊎ ((t.inventory_by_product_zone c.product_id c.zone_id ≡ none)
        × (c.available_quantity ≡ pos 0)
        × (c.reserved_quantity ≡ pos 0))

abbrev pub IsFresh : InventoryKey → List InventoryState → Type 0
IsFresh k [] = Unit
IsFresh k (u ∷ us) = (composite_key u ≢ k) × IsFresh k us

-- The second list is the first with new quantities, for distinct keys.
abbrev pub Changes : Tables → List InventoryState → List InventoryState → Type 0
Changes t [] [] = Unit
Changes t (c ∷ cs) (u ∷ us) =
    (composite_key u ≡ composite_key c)
    × IsCurrent t c
    × IsStock u
    × IsFresh (composite_key c) us
    × Changes t cs us
Changes t _ _ = ⊥

-- The change of a quantity, over the rows of one group.
abbrev pub delta :
    (InventoryState → String)
    → String
    → (InventoryState → ℤ)
    → List InventoryState
    → List InventoryState
    → ℤ
delta group g m (c ∷ cs) (u ∷ us) =
    (if group u == g then m u -ℤ m c else pos 0) +ℤ delta group g m cs us
delta group g m _ _ = pos 0

pub IsCurrent-put_row :
    (u c : InventoryState) (t : Tables)
    → composite_key u ≢ composite_key c
    → IsCurrent t c
    → IsCurrent (put_row u t) c
unfolding put_row
IsCurrent-put_row u c t ne h =
    ground (arith, eq_iff u.product_id c.product_id, eq_iff u.zone_id c.zone_id)

-- Writing one row leaves the other changes as they are.
Changes-put_row :
    (u : InventoryState) (t : Tables) (cs us : List InventoryState)
    → IsFresh (composite_key u) us
    → Changes t cs us
    → Changes (put_row u t) cs us
Changes-put_row u t [] [] f h = tt
Changes-put_row u t (c ∷ cs) (v ∷ us) f h = (
  h.0,
  IsCurrent-put_row u c t (λ e. f.0 (h.0 ∙ sym e)) h.1,
  h.2,
  h.3,
  Changes-put_row u t cs us f.1 h.4,
)
Changes-put_row u t [] (v ∷ us) f h = h
Changes-put_row u t (c ∷ cs) [] f h = h

pub Changes-tail :
    (t : Tables) (c u : InventoryState) (cs us : List InventoryState)
    → Changes t (c ∷ cs) (u ∷ us)
    → Changes (put_row u t) cs us
Changes-tail t c u cs us ch =
    Changes-put_row u t cs us (subst (λ q. IsFresh q us) (sym ch.0) ch.3) ch.4

pub put_rows-IsCoherent :
    (t : Tables) (cs us : List InventoryState)
    → Changes t cs us
    → IsCoherent t
    → IsCoherent (put_rows us t)
unfolding put_rows
put_rows-IsCoherent t [] [] ch h = h
put_rows-IsCoherent t (c ∷ cs) (u ∷ us) ch h =
    put_rows-IsCoherent (put_row u t) cs us (Changes-tail t c u cs us ch)
      (put_row-IsCoherent u ch.2 h)
put_rows-IsCoherent t [] (u ∷ us) ch h = absurd ch
put_rows-IsCoherent t (c ∷ cs) [] ch h = absurd ch

module _ (m : InventoryState → ℤ)
    (zero_row : (c : InventoryState)
      → c.available_quantity ≡ pos 0
      → c.reserved_quantity ≡ pos 0
      → m c ≡ pos 0) where
  pub value_of-current :
      (t : Tables) (c : InventoryState)
      → IsCurrent t c
      → value_of m (t.inventory_by_product_zone c.product_id c.zone_id) ≡ m c
  value_of-current t c (inl e) = rw e refl
  value_of-current t c (inr (e, a, r)) = rw e (sym (zero_row c a r))

  -- The value of the row that `u` overwrites.
  pub value_of-overwritten :
      (t : Tables) (c u : InventoryState)
      → composite_key u ≡ composite_key c
      → IsCurrent t c
      → value_of m (t.inventory_by_product_zone u.product_id u.zone_id) ≡ m c
  value_of-overwritten t c u k h =
      subst
        (λ (q : InventoryKey).
          value_of m (t.inventory_by_product_zone q.product_id q.zone_id) ≡ m c)
        (sym k) (value_of-current t c h)

  upsert_step :
      (column : InventoryState → String) (rows : List InventoryState) (c u : InventoryState)
      → IsDistinct column rows
      → value_of m (find_row column (column u) rows) ≡ m c
      → sum_by m (upsert_row column u rows) ≡ sum_by m rows +ℤ (m u -ℤ m c)
  upsert_step column rows c u d o =
      omega (int_laws, parts_of_eq (sum_by-upsert_row column m u rows d), parts_of_eq o)

  module _ (t : Tables) (c u : InventoryState) (h : IsCoherent t)
      (k : composite_key u ≡ composite_key c) (current : IsCurrent t c) where
    zone_overwritten :
        (z : String)
        → u.zone_id ≡ z
        → value_of m (find_row product_column u.product_id (t.inventory_by_zone z)) ≡ m c
    zone_overwritten z e =
        ap (value_of m) (h.zone_view u.product_id z)
        ∙ subst (λ w. value_of m (t.inventory_by_product_zone u.product_id w) ≡ m c) e
            (value_of-overwritten t c u k current)

    product_overwritten :
        (p : String)
        → u.product_id ≡ p
        → value_of m (find_row zone_column u.zone_id (t.inventory_by_product p)) ≡ m c
    product_overwritten p e =
        ap (value_of m) (h.product_view p u.zone_id)
        ∙ subst (λ w. value_of m (t.inventory_by_product_zone w u.zone_id) ≡ m c) e
            (value_of-overwritten t c u k current)

    zone_step :
        (z : String)
        → sum_by m ((put_row u t).inventory_by_zone z)
          ≡ sum_by m (t.inventory_by_zone z) +ℤ (if u.zone_id == z then m u -ℤ m c else pos 0)
    unfolding put_row
    zone_step z = elim (Bool-cases (u.zone_id == z)) [
      | inl e ↦ rw e (
          upsert_step product_column (t.inventory_by_zone z) c u (h.zone_distinct z)
            (zone_overwritten z (eq_of_beq u.zone_id z e)))
      | inr e ↦ rw e (omega int_laws)
    ]

    product_step :
        (p : String)
        → sum_by m ((put_row u t).inventory_by_product p)
          ≡ sum_by m (t.inventory_by_product p) +ℤ (if u.product_id == p then m u -ℤ m c else pos 0)
    unfolding put_row
    product_step p = elim (Bool-cases (u.product_id == p)) [
      | inl e ↦ rw e (
          upsert_step zone_column (t.inventory_by_product p) c u (h.product_distinct p)
            (product_overwritten p (eq_of_beq u.product_id p e)))
      | inr e ↦ rw e (omega int_laws)
    ]

  -- Writing the rows moves each zone's sum by the changes in that zone.
  pub zone_sum-put_rows :
      (z : String) (t : Tables) (cs us : List InventoryState)
      → IsCoherent t
      → Changes t cs us
      → sum_by m ((put_rows us t).inventory_by_zone z)
        ≡ sum_by m (t.inventory_by_zone z) +ℤ delta zone_column z m cs us
  unfolding put_rows
  zone_sum-put_rows z t [] [] h ch = omega int_laws
  zone_sum-put_rows z t (c ∷ cs) (u ∷ us) h ch = omega (
    int_laws,
    parts_of_eq (zone_step t c u h ch.0 ch.1 z),
    parts_of_eq (
        zone_sum-put_rows z (put_row u t) cs us (put_row-IsCoherent u ch.2 h)
          (Changes-tail t c u cs us ch)),
  )
  zone_sum-put_rows z t [] (u ∷ us) h ch = absurd ch
  zone_sum-put_rows z t (c ∷ cs) [] h ch = absurd ch

  -- And each product's sum by the changes of that product.
  pub product_sum-put_rows :
      (p : String) (t : Tables) (cs us : List InventoryState)
      → IsCoherent t
      → Changes t cs us
      → sum_by m ((put_rows us t).inventory_by_product p)
        ≡ sum_by m (t.inventory_by_product p) +ℤ delta product_column p m cs us
  unfolding put_rows
  product_sum-put_rows p t [] [] h ch = omega int_laws
  product_sum-put_rows p t (c ∷ cs) (u ∷ us) h ch = omega (
    int_laws,
    parts_of_eq (product_step t c u h ch.0 ch.1 p),
    parts_of_eq (
        product_sum-put_rows p (put_row u t) cs us (put_row-IsCoherent u ch.2 h)
          (Changes-tail t c u cs us ch)),
  )
  product_sum-put_rows p t [] (u ∷ us) h ch = absurd ch
  product_sum-put_rows p t (c ∷ cs) [] h ch = absurd ch
