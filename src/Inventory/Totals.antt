-- ===== src/Inventory/Totals.antt =====
-- The totals that an event writes.
use smart_warehouse_platform.Prelude.{
  String, ℤ, pos, ◌+ℤ◌, ◌≡◌, refl, List, [], ◌∷◌, Option, none, some, arith, int_laws, parts_of_eq,
  Bool-cases, inl, inr, ◌∙◌, sym, ap, subst, Dict, lookup, keys, IsDict,
}
use smart_warehouse_platform.Prelude.Eq.{◌==◌, string_eq, eq_of_beq}
use smart_warehouse_platform.Domain.Models.{Instant, InventoryState, ProductTotalsState, key_eq}
use smart_warehouse_platform.Domain.Result.{DomainValidationError, ok, invalid, >>=-eq-ok}
use smart_warehouse_platform.Repository.Schema.{Tables, upsert_total}
use smart_warehouse_platform.Repository.Cql.{run_statement}
use smart_warehouse_platform.Processor.Totals.{
  or_zeros, deltas_from, product_total, updated_total, totals_from, build_totals, is_negative,
}
use smart_warehouse_platform.Inventory.Coherence.{product_column}
use smart_warehouse_platform.Inventory.Changes.{delta}
use smart_warehouse_platform.Inventory.Grouping.{
  Aligned, Aligned-Found, row_pairs, rows_by_key_before, rows_by_key_after, union-keys,
}
use smart_warehouse_platform.Inventory.Deltas.{
  available, reserved, delta_of, deltas_from_lem, IsDict-deltas_from,
}

-- Writing totals: each key's total is the last one written for it.
unfoldable pub put_totals : List ProductTotalsState → Tables → Tables
unfolding run_statement
put_totals [] t = t
put_totals (total ∷ totals) t = put_totals totals (run_statement (upsert_total total) t)

written_total :
    Option (ℤ × ℤ)
    → (ℤ × ℤ → ProductTotalsState)
    → Option ProductTotalsState
    → Option ProductTotalsState
written_total none f old = old
written_total (some x) f old = some (f x)

abbrev totals_of :
    (String → ℤ × ℤ → ProductTotalsState) → Dict String (ℤ × ℤ) → List ProductTotalsState
totals_of f [] = []
totals_of f ((p, x) ∷ deltas) = f p x ∷ totals_of f deltas

module _ (f : String → ℤ × ℤ → ProductTotalsState)
    (key : (p : String) (x : ℤ × ℤ) → (f p x).product_id ≡ p) where
  put_first :
      (p q : String) (x : ℤ × ℤ) (deltas : Dict String (ℤ × ℤ)) (t : Tables)
      → lookup q deltas ≡ none
      → written_total
          (lookup p deltas)
          (f p)
          ((run_statement (upsert_total (f q x)) t).inventory_totals_by_product p)
        ≡ written_total (lookup p ((q, x) ∷ deltas)) (f p) (t.inventory_totals_by_product p)
  unfolding run_statement written_total
  put_first p q x deltas t new =
      let same = ap (λ w. w == p) (key q x) in
      elim (Bool-cases (q == p)) [
        | inl e ↦
            let q≡p = eq_of_beq q p e in
            rw (e, same ∙ e, subst (λ w. lookup w deltas ≡ none) q≡p new)
              (ap (λ w. some (f w x)) q≡p)
        | inr e ↦ rw (e, same ∙ e) refl
      ]

  put_totals_lem :
      (p : String) (deltas : Dict String (ℤ × ℤ)) (t : Tables)
      → IsDict deltas
      → (put_totals (totals_of f deltas) t).inventory_totals_by_product p
        ≡ written_total (lookup p deltas) (f p) (t.inventory_totals_by_product p)
  unfolding put_totals written_total
  put_totals_lem p [] t h = refl
  put_totals_lem p ((q, x) ∷ deltas) t h =
      put_totals_lem p deltas (run_statement (upsert_total (f q x)) t) h.1
      ∙ put_first p q x deltas t h.0

-- What the table of totals says of a product: zero if it has no row.
abbrev pub stored_available : Option ProductTotalsState → ℤ
stored_available none = pos 0
stored_available (some r) = r.total_available_quantity

abbrev pub stored_reserved : Option ProductTotalsState → ℤ
stored_reserved none = pos 0
stored_reserved (some r) = r.total_reserved_quantity

not_ok {ℓ} : {A : Type ℓ} {e : DomainValidationError} {a : A} → invalid e ≡ ok a → ⊥
not_ok h = cc

updated_total-key :
    (now : Instant) (t : Tables) (occurred_at : ℤ) (p : String) (x : ℤ × ℤ)
    → (updated_total now t occurred_at p x).product_id ≡ p
unfolding updated_total
updated_total-key now t occurred_at p x = refl

module _ (now : Instant) (t : Tables) (occurred_at : ℤ) where
  totals_from-eq-ok :
      (deltas : Dict String (ℤ × ℤ)) (totals : List ProductTotalsState)
      → totals_from now t occurred_at deltas ≡ ok totals
      → totals ≡ totals_of (updated_total now t occurred_at) deltas
  unfolding totals_from
  totals_from-eq-ok [] totals h = ground arith
  totals_from-eq-ok ((p, x) ∷ deltas) totals h =
      let total = updated_total now t occurred_at p x in
      elim (Bool-cases (is_negative total)) [
        | inl e ↦ absurd (not_ok (rw e at h))
        | inr e ↦
            let (rest, found, same) =
              >>=-eq-ok (totals_from now t occurred_at deltas) (λ others. ok (total ∷ others))
                (rw e at h) in
            cc (same, totals_from-eq-ok deltas rest found)
      ]

  written_available :
      (p : String) (o : Option (ℤ × ℤ))
      → stored_available
          (written_total o (updated_total now t occurred_at p) (t.inventory_totals_by_product p))
        ≡ stored_available (t.inventory_totals_by_product p) +ℤ (or_zeros o).0
  unfolding written_total updated_total product_total
  written_available p none = omega int_laws
  written_available p (some x) = ground arith

  written_reserved :
      (p : String) (o : Option (ℤ × ℤ))
      → stored_reserved
          (written_total o (updated_total now t occurred_at p) (t.inventory_totals_by_product p))
        ≡ stored_reserved (t.inventory_totals_by_product p) +ℤ (or_zeros o).1
  unfolding written_total updated_total product_total
  written_reserved p none = omega int_laws
  written_reserved p (some x) = ground arith

-- The totals that an event writes move the stored ones by the changes of its rows.
module _ (now : Instant) (t : Tables) (occurred_at : ℤ) (cs us : List InventoryState)
    (a : Aligned cs us) where
  abbrev pub row_deltas : Dict String (ℤ × ℤ)
  row_deltas = deltas_from (row_pairs cs) (row_pairs us) [] (keys (row_pairs cs))

  pub build_totals-eq :
      build_totals now t occurred_at cs us ≡ totals_from now t occurred_at row_deltas
  unfolding build_totals
  build_totals-eq =
      rw (rows_by_key_before cs us a, rows_by_key_after cs us a) (rw (union-keys cs us a) refl)

  pub row_deltas_lem :
      (p : String)
      → ((delta_of p row_deltas).0 ≡ delta product_column p available cs us)
        × ((delta_of p row_deltas).1 ≡ delta product_column p reserved cs us)
  row_deltas_lem p =
      let sums =
        deltas_from_lem p (row_pairs cs) (row_pairs us) [] cs us a (Aligned-Found cs us a) in
      (omega (int_laws, parts_of_eq sums.0), omega (int_laws, parts_of_eq sums.1))

  module _ (totals : List ProductTotalsState)
      (h : build_totals now t occurred_at cs us ≡ ok totals) where
    totals_after :
        (p : String)
        → (put_totals totals t).inventory_totals_by_product p
          ≡ written_total
              (lookup p row_deltas)
              (updated_total now t occurred_at p)
              (t.inventory_totals_by_product p)
    totals_after p =
        let same =
          totals_from-eq-ok now t occurred_at row_deltas totals (sym build_totals-eq ∙ h) in
        ap (λ (x : List ProductTotalsState). (put_totals x t).inventory_totals_by_product p) same
        ∙ put_totals_lem (updated_total now t occurred_at) (updated_total-key now t occurred_at) p
            row_deltas t
            (IsDict-deltas_from (row_pairs cs) (row_pairs us) [] (keys (row_pairs cs)) tt)

    pub stored_available-put_totals :
        (p : String)
        → stored_available ((put_totals totals t).inventory_totals_by_product p)
          ≡ stored_available (t.inventory_totals_by_product p)
            +ℤ delta product_column p available cs us
    stored_available-put_totals p =
        ap stored_available (totals_after p)
        ∙ (written_available now t occurred_at p (lookup p row_deltas)
            ∙ omega (int_laws, parts_of_eq (row_deltas_lem p).0))

    pub stored_reserved-put_totals :
        (p : String)
        → stored_reserved ((put_totals totals t).inventory_totals_by_product p)
          ≡ stored_reserved (t.inventory_totals_by_product p)
            +ℤ delta product_column p reserved cs us
    stored_reserved-put_totals p =
        ap stored_reserved (totals_after p)
        ∙ (written_reserved now t occurred_at p (lookup p row_deltas)
            ∙ omega (int_laws, parts_of_eq (row_deltas_lem p).1))
