-- ===== src/Inventory/Deltas.antt =====
-- What the first loop of `_build_totals` sums: each product's change.
use smart_warehouse_platform.Prelude.{
  String, ℤ, pos, ◌+ℤ◌, ◌-ℤ◌, ◌≡◌, refl, List, [], ◌∷◌, int_laws, parts_of_eq, ◌∙◌, sym, ap,
  if◌then◌else◌, Bool, true, false, Dict, lookup, insert, keys, lookup-insert, IsDict,
  IsDict-insert,
}
use smart_warehouse_platform.Prelude.Eq.{◌==◌, string_eq, eq_of_beq}
use smart_warehouse_platform.Domain.Models.{InventoryKey, InventoryState, key_eq}
use smart_warehouse_platform.Processor.Totals.{available_of, reserved_of, or_zeros, deltas_from}
use smart_warehouse_platform.Inventory.Coherence.{product_column}
use smart_warehouse_platform.Inventory.Changes.{delta}
use smart_warehouse_platform.Inventory.Grouping.{Aligned, Found, row_pairs}

abbrev pub available : InventoryState → ℤ
available r = r.available_quantity

abbrev pub reserved : InventoryState → ℤ
reserved r = r.reserved_quantity

abbrev pub delta_of : String → Dict String (ℤ × ℤ) → ℤ × ℤ
delta_of p deltas = or_zeros (lookup p deltas)

-- One round of the first loop.
abbrev next_deltas : String → ℤ → ℤ → Dict String (ℤ × ℤ) → Dict String (ℤ × ℤ)
next_deltas w x y deltas = insert w ((delta_of w deltas).0 +ℤ x, (delta_of w deltas).1 +ℤ y) deltas

next_deltas_lem :
    (w p : String) (x y : ℤ) (deltas : Dict String (ℤ × ℤ)) (b : Bool)
    → (w == p) ≡ b
    → ((delta_of p (next_deltas w x y deltas)).0
        ≡ (delta_of p deltas).0 +ℤ (if b then x else pos 0))
      × ((delta_of p (next_deltas w x y deltas)).1
          ≡ (delta_of p deltas).1 +ℤ (if b then y else pos 0))
next_deltas_lem w p x y deltas true e =
    rw (lookup-insert w p ((delta_of w deltas).0 +ℤ x, (delta_of w deltas).1 +ℤ y) deltas)
      (rw e (rw (eq_of_beq w p e) (refl, refl)))
next_deltas_lem w p x y deltas false e =
    rw (lookup-insert w p ((delta_of w deltas).0 +ℤ x, (delta_of w deltas).1 +ℤ y) deltas)
      (rw e (omega int_laws, omega int_laws))

-- The first loop sums the changes of each product.
pub deltas_from_lem :
    (p : String) (d e : Dict InventoryKey InventoryState) (deltas : Dict String (ℤ × ℤ))
    (cs us : List InventoryState)
    → Aligned cs us
    → Found d e cs us
    → ((delta_of p (deltas_from d e deltas (keys (row_pairs cs)))).0
        ≡ (delta_of p deltas).0 +ℤ delta product_column p available cs us)
      × ((delta_of p (deltas_from d e deltas (keys (row_pairs cs)))).1
          ≡ (delta_of p deltas).1 +ℤ delta product_column p reserved cs us)
unfolding deltas_from
deltas_from_lem p d e deltas [] [] a f = (omega int_laws, omega int_laws)
deltas_from_lem p d e deltas (c ∷ cs) (u ∷ us) a f =
    let x = available u -ℤ available c in
    let y = reserved u -ℤ reserved c in
    let same = ap (λ (k : InventoryKey). k.product_id == p) (sym a.0) in
    let one = next_deltas_lem c.product_id p x y deltas (u.product_id == p) same in
    let rest = deltas_from_lem p d e (next_deltas c.product_id x y deltas) cs us a.2 f.2 in
    let old = delta_of c.product_id deltas in
    let step : deltas_from d e deltas (keys (row_pairs (c ∷ cs)))
        ≡ deltas_from d e (next_deltas c.product_id x y deltas) (keys (row_pairs cs)) =
      λ i.
        deltas_from d e
          (insert c.product_id
            (
              old.0 +ℤ (available_of (f.1 i) -ℤ available_of (f.0 i)),
              old.1 +ℤ (reserved_of (f.1 i) -ℤ reserved_of (f.0 i)),
            )
            deltas)
          (keys (row_pairs cs)) in
    (
      ap (λ (r : Dict String (ℤ × ℤ)). (delta_of p r).0) step
          ∙ omega (int_laws, parts_of_eq one.0, parts_of_eq rest.0),
      ap (λ (r : Dict String (ℤ × ℤ)). (delta_of p r).1) step
          ∙ omega (int_laws, parts_of_eq one.1, parts_of_eq rest.1),
    )
deltas_from_lem p d e deltas [] (u ∷ us) a f = absurd f
deltas_from_lem p d e deltas (c ∷ cs) [] a f = absurd f

pub IsDict-deltas_from :
    (d e : Dict InventoryKey InventoryState) (deltas : Dict String (ℤ × ℤ)) (ks : List InventoryKey)
    → IsDict deltas
    → IsDict (deltas_from d e deltas ks)
unfolding deltas_from
IsDict-deltas_from d e deltas [] h = h
IsDict-deltas_from d e deltas (k ∷ ks) h =
    let before = lookup k d in
    let after = lookup k e in
    let old = or_zeros (lookup k.product_id deltas) in
    let new : ℤ × ℤ = (
      old.0 +ℤ (available_of after -ℤ available_of before),
      old.1 +ℤ (reserved_of after -ℤ reserved_of before),
    ) in
    IsDict-deltas_from d e (insert k.product_id new deltas) ks
      (IsDict-insert k.product_id new deltas h)
