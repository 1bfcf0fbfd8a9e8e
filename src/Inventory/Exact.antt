-- ===== src/Inventory/Exact.antt =====
-- The two checks before a write, of the zones' capacities and of negative totals, for rows that the
-- stored ones are replaced by.
use smart_warehouse_platform.Prelude.{
  arith, String, ℤ, pos, ◌+ℤ◌, ◌≤ℤ◌, ◌≡◌, refl, false, ◌↔◌, inl, inr, Option-cases, List, [], ◌∷◌,
  some, int_laws, parts_of_eq, ◌∙◌, sym, ap, Dict, lookup, IsDict, keys, union,
}
use text.Mathlib.TextEquality.{eq_iff}
use smart_warehouse_platform.Prelude.Eq.{string_eq, beq_refl}
use smart_warehouse_platform.Domain.Models.{
  Instant, InventoryState, ProductTotalsState, ZoneInfo, total_quantity,
}
use smart_warehouse_platform.Domain.Result.{ok, >>=-eq-ok}
use smart_warehouse_platform.Repository.Schema.{Tables}
use smart_warehouse_platform.Repository.Cql.{find_row}
use smart_warehouse_platform.Repository.Partition.{sum_by, sum_by_nonneg}
use smart_warehouse_platform.Processor.Rows.{rows_by_zone}
use smart_warehouse_platform.Processor.Totals.{
  build_totals, totals_from, updated_total, is_negative, product_total, or_zeros,
}
use smart_warehouse_platform.Processor.Capacity.{
  replaced_total, validate_zone, validate_zones, validate_zone_capacities,
}
use smart_warehouse_platform.Inventory.Coherence.{
  IsCoherent, IsStock, put_rows, zone_column, product_column,
}
use smart_warehouse_platform.Inventory.Changes.{
  Changes, delta, zone_sum-put_rows, product_sum-put_rows, put_rows-IsCoherent,
}
use smart_warehouse_platform.Inventory.Grouping.{row_pairs}
use smart_warehouse_platform.Inventory.Zones.{replaced_total_lem}
use smart_warehouse_platform.Inventory.Totals.{
  stored_available, stored_reserved, row_deltas, row_deltas_lem, build_totals-eq,
}
use smart_warehouse_platform.Inventory.Deltas.{available, reserved, IsDict-deltas_from}
use smart_warehouse_platform.Inventory.Consistency.{IsConsistent, Changes-Aligned, zero_total}

-- What the capacity check computes for a zone, one replaced row after the other, is the sum of the
-- zone's rows once all rows of the event are written, if the tables agree, the rows that the event
-- replaces are the stored ones (or empty ones for keys without a row) under distinct keys, and no
-- quantity that it writes is negative.
pub replaced_total-put_rows :
    (t : Tables) (z : String) (cs us : List InventoryState)
    → IsCoherent t
    → Changes t cs us
    → replaced_total t (rows_by_zone us) (rows_by_zone cs) z
      ≡ sum_by total_quantity ((put_rows us t).inventory_by_zone z)
replaced_total-put_rows t z cs us h changes =
    replaced_total_lem t z cs us (Changes-Aligned t cs us changes)
    ∙ sym (zone_sum-put_rows total_quantity zero_total z t cs us h changes)

-- A zone exists and holds no more than its capacity.
abbrev pub ZoneFits : Tables → String → ℤ → Type 0
ZoneFits t z total = (zone : ZoneInfo) × (t.zones_by_id z ≡ some zone) × (total ≤ℤ zone.capacity)

abbrev pub ZonesFit : Tables → (String → ℤ) → List String → Type 0
ZonesFit t total [] = Unit
ZonesFit t total (z ∷ zs) = ZoneFits t z (total z) × ZonesFit t total zs

module _ (t : Tables) (uz cz : Dict String (List InventoryState)) (total : String → ℤ)
    (same : (z : String) → replaced_total t uz cz z ≡ total z) where
  validate_zone_iff : (z : String) → (validate_zone t uz cz z ≡ ok tt) ↔ ZoneFits t z (total z)
  unfolding validate_zone
  validate_zone_iff z = elim (Option-cases (t.zones_by_id z)) [
    | inl e ↦ ((λ v. absurd (ground (arith, e, v))), (λ f. absurd (ground (arith, e, f.1))))
    | inr (zone, e) ↦
        ((λ v. (zone, e, ground (arith, e, v, same z))), (λ f. ground (arith, e, f.1, f.2, same z)))
  ]

  validate_zones_iff :
      (zs : List String) → (validate_zones t uz cz zs ≡ ok tt) ↔ ZonesFit t total zs
  unfolding validate_zones
  validate_zones_iff [] = ((λ e. tt), (λ e. refl))
  validate_zones_iff (z ∷ zs) = (
    (λ e.
        let (u, first, rest) = >>=-eq-ok (validate_zone t uz cz z) _ e in
        ((validate_zone_iff z).0 first, (validate_zones_iff zs).0 rest)),
    (λ f. rw ((validate_zone_iff z).1 f.0) ((validate_zones_iff zs).1 f.1)),
  )

-- The capacity check lets an event through exactly if every zone that the event touches exists and
-- holds no more than its capacity once the rows are written, if the tables agree, the rows that the
-- event replaces are the stored ones (or empty ones for keys without a row) under distinct keys, and
-- no quantity that it writes is negative.
pub validate_zone_capacities_iff :
    (t : Tables) (cs us : List InventoryState)
    → IsCoherent t
    → Changes t cs us
    → (validate_zone_capacities t (rows_by_zone us) (rows_by_zone cs) ≡ ok tt)
      ↔ ZonesFit t
          (λ z. sum_by total_quantity ((put_rows us t).inventory_by_zone z))
          (union (keys (rows_by_zone us)) (keys (rows_by_zone cs)))
unfolding validate_zone_capacities
validate_zone_capacities_iff t cs us h changes =
    validate_zones_iff t (rows_by_zone us) (rows_by_zone cs)
      (λ z. sum_by total_quantity ((put_rows us t).inventory_by_zone z))
      (λ z. replaced_total-put_rows t z cs us h changes)
      (union (keys (rows_by_zone us)) (keys (rows_by_zone cs)))

not_negative :
    (total : ProductTotalsState)
    → pos 0 ≤ℤ total.total_available_quantity
    → pos 0 ≤ℤ total.total_reserved_quantity
    → is_negative total ≡ false
not_negative total a b = ground (arith, a, b)

module _ (now : Instant) (t : Tables) (occurred_at : ℤ) where
  totals_from_succeeds :
      (deltas : Dict String (ℤ × ℤ))
      → IsDict deltas
      → ((p : String) (x : ℤ × ℤ)
          → lookup p deltas ≡ some x
          → is_negative (updated_total now t occurred_at p x) ≡ false)
      → (totals : List ProductTotalsState) × (totals_from now t occurred_at deltas ≡ ok totals)
  unfolding totals_from
  totals_from_succeeds [] d h = ([], refl)
  totals_from_succeeds ((p, x) ∷ deltas) d h =
      let head = h p x (ground (arith, beq_refl p)) in
      let (totals, e) =
        totals_from_succeeds deltas d.1
          (λ q y found. h q y (ground (arith, found, d.0, eq_iff p q))) in
      (updated_total now t occurred_at p x ∷ totals, rw head (rw e refl))

module _ (now : Instant) (t : Tables) (occurred_at : ℤ) (cs us : List InventoryState)
    (h : IsConsistent t) (changes : Changes t cs us) where
  written_nonneg :
      (p : String)
      → (pos 0 ≤ℤ sum_by available ((put_rows us t).inventory_by_product p))
        × (pos 0 ≤ℤ sum_by reserved ((put_rows us t).inventory_by_product p))
  written_nonneg p =
      let kept = put_rows-IsCoherent t cs us changes h.coherent in
      let rows = (put_rows us t).inventory_by_product p in
      let stock : (k : String) (r : InventoryState)
          → find_row zone_column k rows ≡ some r
          → IsStock r =
        λ k r e. kept.stock p k r (sym (kept.product_view p k) ∙ e) in
      (
        sum_by_nonneg available zone_column rows (kept.product_distinct p)
            (λ k r e. (stock k r e).0),
        sum_by_nonneg reserved zone_column rows (kept.product_distinct p)
            (λ k r e. (stock k r e).1),
      )

  -- One quantity of an updated total: what is stored, and the change of the product's rows.
  total_nonneg :
      (m : InventoryState → ℤ) (p : String) {stored x : ℤ}
      → stored ≡ sum_by m (t.inventory_by_product p)
      → x ≡ delta product_column p m cs us
      → sum_by m ((put_rows us t).inventory_by_product p)
        ≡ sum_by m (t.inventory_by_product p) +ℤ delta product_column p m cs us
      → pos 0 ≤ℤ sum_by m ((put_rows us t).inventory_by_product p)
      → pos 0 ≤ℤ stored +ℤ x
  total_nonneg m p e f g bound =
      omega (int_laws, parts_of_eq e, parts_of_eq f, parts_of_eq g, bound)

  stored_total :
      (p : String)
      → ((product_total now t p).total_available_quantity
          ≡ stored_available (t.inventory_totals_by_product p))
        × ((product_total now t p).total_reserved_quantity
            ≡ stored_reserved (t.inventory_totals_by_product p))
  unfolding product_total
  stored_total p = (ground arith, ground arith)

  updated_total-nonneg :
      (p : String) (x : ℤ × ℤ)
      → lookup p (row_deltas now t occurred_at cs us (Changes-Aligned t cs us changes)) ≡ some x
      → is_negative (updated_total now t occurred_at p x) ≡ false
  unfolding updated_total
  updated_total-nonneg p x found =
      let a = Changes-Aligned t cs us changes in
      let deltas = row_deltas_lem now t occurred_at cs us a p in
      let x_delta = ap or_zeros (sym found) in
      let a0 =
        total_nonneg available p ((stored_total p).0 ∙ h.available_total p)
          (ap (λ (y : ℤ × ℤ). y.0) x_delta ∙ deltas.0)
          (product_sum-put_rows available (λ c v w. v) p t cs us h.coherent changes)
          (written_nonneg p).0 in
      let r0 =
        total_nonneg reserved p ((stored_total p).1 ∙ h.reserved_total p)
          (ap (λ (y : ℤ × ℤ). y.1) x_delta ∙ deltas.1)
          (product_sum-put_rows reserved (λ c v w. w) p t cs us h.coherent changes)
          (written_nonneg p).1 in
      not_negative (updated_total now t occurred_at p x) a0 r0

-- From consistent tables the totals of an event's rows are built, without the error of negative
-- totals, if the rows that the event replaces are the stored ones (or empty ones for keys without a
-- row) under distinct keys, and no quantity that it writes is negative.
pub build_totals-succeeds :
    (now : Instant) (t : Tables) (occurred_at : ℤ) (cs us : List InventoryState)
    → IsConsistent t
    → Changes t cs us
    → (totals : List ProductTotalsState) × (build_totals now t occurred_at cs us ≡ ok totals)
build_totals-succeeds now t occurred_at cs us h changes =
    let a = Changes-Aligned t cs us changes in
    let (totals, built) =
      totals_from_succeeds now t occurred_at (row_deltas now t occurred_at cs us a)
        (IsDict-deltas_from (row_pairs cs) (row_pairs us) [] (keys (row_pairs cs)) tt)
        (updated_total-nonneg now t occurred_at cs us h changes) in
    (totals, build_totals-eq now t occurred_at cs us a ∙ built)
