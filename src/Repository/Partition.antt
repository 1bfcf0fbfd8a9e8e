-- ===== src/Repository/Partition.antt =====
-- One partition of an inventory table: what an upsert does to lookups, to the distinctness of the
-- clustering keys and to sums over the rows.
use Prim.Native.String.{compare}
use text.Mathlib.Text.{is_lt}
use text.Mathlib.TextEquality.{eq_iff}
use smart_warehouse_platform.Prelude.{
  String, ℤ, pos, ◌+ℤ◌, ◌≡◌, refl, ◌≤ℤ◌, List, [], ◌∷◌, Option, none, some, arith, int_laws,
  parts_of_eq, Bool-cases, inl, inr, if◌then◌else◌,
}
use smart_warehouse_platform.Prelude.Eq.{◌==◌, string_eq, beq_refl}
use smart_warehouse_platform.Domain.Models.{InventoryState}
use smart_warehouse_platform.Repository.Cql.{without, place, upsert_row, find_row}

module _ (column : InventoryState → String) where
  pub find_row-without :
      (j k : String) (rows : List InventoryState)
      → find_row column k (without column j rows)
        ≡ (if j == k then none else find_row column k rows)
  unfolding find_row without
  find_row-without j k [] = ground arith
  find_row-without j k (r ∷ rows) =
      ground
        (arith, find_row-without j k rows, eq_iff j k, eq_iff (column r) j, eq_iff (column r) k)

  find_row-place :
      (k : String) (row : InventoryState) (rows : List InventoryState)
      → find_row column (column row) rows ≡ none
      → find_row column k (place column row rows)
        ≡ (if column row == k then some row else find_row column k rows)
  unfolding find_row place
  find_row-place k row [] h = refl
  find_row-place k row (r ∷ rows) h = ground (
    arith,
    find_row-place k row rows,
    eq_iff (column row) k,
    eq_iff (column r) (column row),
    eq_iff (column r) k,
  )

  find_row-without_self :
      (k : String) (rows : List InventoryState) → find_row column k (without column k rows) ≡ none
  find_row-without_self k rows = ground (arith, find_row-without k k rows, eq_iff k k)

  -- Reading a key after an upsert.
  pub find_row-upsert_row :
      (k : String) (row : InventoryState) (rows : List InventoryState)
      → find_row column k (upsert_row column row rows)
        ≡ (if column row == k then some row else find_row column k rows)
  unfolding upsert_row
  find_row-upsert_row k row rows = ground (
    arith,
    find_row-place k row (without column (column row) rows)
        (find_row-without_self (column row) rows),
    find_row-without (column row) k rows,
  )

  -- No two rows of a partition have the same clustering key.
  abbrev pub IsDistinct : List InventoryState → Type 0
  IsDistinct [] = Unit
  IsDistinct (r ∷ rows) = (find_row column (column r) rows ≡ none) × IsDistinct rows

  IsDistinct-without :
      (k : String) (rows : List InventoryState)
      → IsDistinct rows
      → IsDistinct (without column k rows)
  unfolding without
  IsDistinct-without k [] h = tt
  IsDistinct-without k (r ∷ rows) h = ground (
    arith,
    IsDistinct-without k rows h.1,
    find_row-without k (column r) rows,
    eq_iff (column r) k,
  )

  IsDistinct-place :
      (row : InventoryState) (rows : List InventoryState)
      → find_row column (column row) rows ≡ none
      → IsDistinct rows
      → IsDistinct (place column row rows)
  unfolding place find_row
  IsDistinct-place row [] f h = (f, tt)
  IsDistinct-place row (r ∷ rows) f h = ground (
    arith,
    IsDistinct-place row rows,
    find_row-place (column r) row rows,
    eq_iff (column r) (column row),
    eq_iff (column row) (column r),
  )

  pub IsDistinct-upsert_row :
      (row : InventoryState) (rows : List InventoryState)
      → IsDistinct rows
      → IsDistinct (upsert_row column row rows)
  unfolding upsert_row
  IsDistinct-upsert_row row rows h =
      IsDistinct-place row (without column (column row) rows)
        (find_row-without_self (column row) rows) (IsDistinct-without (column row) rows h)

-- Sums of a quantity over rows.
module _ (m : InventoryState → ℤ) where
  abbrev pub sum_by : List InventoryState → ℤ
  sum_by [] = pos 0
  sum_by (r ∷ rows) = m r +ℤ sum_by rows

  -- The quantity of a row that may be missing.
  abbrev pub value_of : Option InventoryState → ℤ
  value_of none = pos 0
  value_of (some r) = m r

  -- Every row is found under its own key, so what holds of every row found holds of the sum.
  pub sum_by_nonneg :
      (column : InventoryState → String) (rows : List InventoryState)
      → IsDistinct column rows
      → ((k : String) (r : InventoryState) → find_row column k rows ≡ some r → pos 0 ≤ℤ m r)
      → pos 0 ≤ℤ sum_by rows
  unfolding find_row
  sum_by_nonneg column [] d h = omega arith
  sum_by_nonneg column (r ∷ rows) d h =
      let head = h (column r) r (rw (beq_refl (column r)) refl) in
      let rest =
        sum_by_nonneg column rows d.1
          (λ k r' e. h k r' (ground (arith, eq_iff (column r) k, e, d.0))) in
      omega (int_laws, head, rest)

module _ (column : InventoryState → String) (m : InventoryState → ℤ) where
  without_fresh :
      (k : String) (rows : List InventoryState)
      → find_row column k rows ≡ none
      → without column k rows ≡ rows
  unfolding find_row without
  without_fresh k [] h = refl
  without_fresh k (r ∷ rows) h = ground (arith, without_fresh k rows)

  sum_by-without :
      (k : String) (rows : List InventoryState)
      → IsDistinct column rows
      → sum_by m (without column k rows) +ℤ value_of m (find_row column k rows) ≡ sum_by m rows
  unfolding find_row without
  sum_by-without k [] d = omega int_laws
  sum_by-without k (r ∷ rows) d = elim (Bool-cases (column r == k)) [
    | inl e ↦
        rw e (rw (without_fresh k rows (ground (arith, d.0, eq_iff (column r) k))) (omega int_laws))
    | inr e ↦ rw e (omega (int_laws, parts_of_eq (sum_by-without k rows d.1)))
  ]

  sum_by-place :
      (row : InventoryState) (rows : List InventoryState)
      → sum_by m (place column row rows) ≡ m row +ℤ sum_by m rows
  unfolding place
  sum_by-place row [] = refl
  sum_by-place row (r ∷ rows) = elim (Bool-cases (is_lt (compare (column row) (column r)))) [
    | inl e ↦ rw e refl
    | inr e ↦ rw e (omega (int_laws, parts_of_eq (sum_by-place row rows)))
  ]

  -- An upsert takes the old row's quantity out of the sum, and puts the new row's in.
  pub sum_by-upsert_row :
      (row : InventoryState) (rows : List InventoryState)
      → IsDistinct column rows
      → sum_by m (upsert_row column row rows) +ℤ value_of m (find_row column (column row) rows)
        ≡ sum_by m rows +ℤ m row
  unfolding upsert_row
  sum_by-upsert_row row rows d = omega (
    int_laws,
    parts_of_eq (sum_by-place row (without column (column row) rows)),
    parts_of_eq (sum_by-without (column row) rows d),
  )
