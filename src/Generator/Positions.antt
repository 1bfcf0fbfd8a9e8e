-- ===== src/Generator/Positions.antt =====
-- A position that is looked up after one has been put, and what all positions satisfy.
use smart_warehouse_platform.Prelude.{
  String, ℤ, ◌≤ℤ◌, ltb_ℤ, ltb_ℤ→ge, ◌&&◌, List, [], ◌∷◌, ◌++◌, some, Dict, lookup, insert,
  lookup-insert, IsDict, IsDict-insert, IsDict-lookup, AllEntries, AllEntries-map,
  AllEntries-lookup, AllEntries-insert, All, Bool-cases, Option-cases, inl, inr, ◌≡◌, refl, arith,
  if◌then◌else◌,
}
use smart_warehouse_platform.Prelude.Eq.{◌==◌, string_eq}
use smart_warehouse_platform.Processor.Rows.{or_nil}
use smart_warehouse_platform.Generator.State.{SimulatedInventory, no_stock, Inventory}
use smart_warehouse_platform.Generator.Stock.{
  position_of, put_position, Candidate, candidates_of, candidates,
}

pub position_of-put_position :
    (p z p' z' : String) (position : SimulatedInventory) (inventory : Inventory)
    → position_of p' z' (put_position p z position inventory)
      ≡ (if p == p' && z == z' then position else position_of p' z' inventory)
unfolding position_of put_position
position_of-put_position p z p' z' position inventory = ground (
  arith,
  lookup-insert p p' (insert z position (or_nil (lookup p inventory))) inventory,
  lookup-insert z z' position (or_nil (lookup p inventory)),
  string_eq.beq_iff p p',
)

-- The keys of both levels are distinct, and every position satisfies `S`.
abbrev pub AreAll : (SimulatedInventory → Type 0) → Inventory → Type 0
AreAll S inventory =
    IsDict inventory
    × AllEntries (λ p positions. IsDict positions × AllEntries (λ z position. S position) positions)
        inventory

module _ (S : SimulatedInventory → Type 0) where
  abbrev Row : String → Dict String SimulatedInventory → Type 0
  Row p positions = IsDict positions × AllEntries (λ z position. S position) positions

  Row-or_nil :
      (p : String) (inventory : Inventory)
      → AreAll S inventory
      → Row p (or_nil (lookup p inventory))
  Row-or_nil p inventory h = elim (Option-cases (lookup p inventory)) [
    | inl e ↦ rw e (tt, tt)
    | inr (positions, e) ↦ rw e (AllEntries-lookup Row p positions inventory h.1 e)
  ]

  pub position_of-AreAll :
      (p z : String) (inventory : Inventory)
      → S no_stock
      → AreAll S inventory
      → S (position_of p z inventory)
  unfolding position_of
  position_of-AreAll p z inventory s h =
      elim (Option-cases (lookup z (or_nil (lookup p inventory)))) [
        | inl e ↦ rw e s
        | inr (position, e) ↦ rw e (
            AllEntries-lookup (λ z position. S position) z position (or_nil (lookup p inventory))
              (Row-or_nil p inventory h).1 e)
      ]

  pub put_position-AreAll :
      (p z : String) (position : SimulatedInventory) (inventory : Inventory)
      → S position
      → AreAll S inventory
      → AreAll S (put_position p z position inventory)
  unfolding put_position
  put_position-AreAll p z position inventory s h =
      let row = Row-or_nil p inventory h in
      (
        IsDict-insert p (insert z position (or_nil (lookup p inventory))) inventory h.0,
        AllEntries-insert Row p (insert z position (or_nil (lookup p inventory))) inventory
            (
              IsDict-insert z position (or_nil (lookup p inventory)) row.0,
              AllEntries-insert (λ z position. S position) z position (or_nil (lookup p inventory))
                  s row.1,
            )
            h.1,
      )

All-append {ℓ} :
    {A : Type ℓ} (P : A → Type 0) (xs ys : List A) → All P xs → All P ys → All P (xs ++ ys)
All-append P [] ys h k = k
All-append P (x ∷ xs) ys h k = (h.0, All-append P xs ys h.1 k)

-- A candidate is a position of the stock, and has enough.
abbrev pub IsCandidate : (SimulatedInventory → ℤ) → ℤ → Inventory → Candidate → Type 0
IsCandidate quantity minimum inventory c =
    (position_of c.product_id c.zone_id inventory ≡ c.position) × (minimum ≤ℤ quantity c.position)

module _ (quantity : SimulatedInventory → ℤ) (minimum : ℤ) (inventory : Inventory) where
  candidates_of-IsCandidate :
      (p : String) (positions : Dict String SimulatedInventory)
      → AllEntries (λ z position. position_of p z inventory ≡ position) positions
      → All (IsCandidate quantity minimum inventory) (candidates_of quantity minimum p positions)
  candidates_of-IsCandidate p [] h = tt
  candidates_of-IsCandidate p ((z, position) ∷ rest) h =
      elim (Bool-cases (ltb_ℤ (quantity position) minimum)) [
        | inl e ↦ rw e (candidates_of-IsCandidate p rest h.1)
        | inr e ↦
            rw e
              ((h.0, ltb_ℤ→ge (quantity position) minimum e), candidates_of-IsCandidate p rest h.1)
      ]

  rows-IsCandidate :
      (rows : Inventory)
      → AllEntries
          (λ p positions. AllEntries (λ z position. position_of p z inventory ≡ position) positions)
          rows
      → All (IsCandidate quantity minimum inventory) (candidates quantity minimum rows)
  rows-IsCandidate [] h = tt
  rows-IsCandidate ((p, positions) ∷ rows) h =
      All-append (IsCandidate quantity minimum inventory)
        (candidates_of quantity minimum p positions) (candidates quantity minimum rows)
        (candidates_of-IsCandidate p positions h.0) (rows-IsCandidate rows h.1)

AllEntries-both {ℓ κ} :
    {K : Type ℓ} {V : Type κ} (P Q : K → V → Type κ) (d : Dict K V)
    → AllEntries P d
    → AllEntries Q d
    → AllEntries (λ k v. P k v × Q k v) d
AllEntries-both P Q [] h k = tt
AllEntries-both P Q (x ∷ d) h k = ((h.0, k.0), AllEntries-both P Q d h.1 k.1)

entry_found :
    (p z : String) (position : SimulatedInventory) (positions : Dict String SimulatedInventory)
    (inventory : Inventory)
    → lookup p inventory ≡ some positions
    → lookup z positions ≡ some position
    → position_of p z inventory ≡ position
unfolding position_of
entry_found p z position positions inventory h k = rw h (rw k refl)

pub candidates-IsCandidate :
    (S : SimulatedInventory → Type 0) (quantity : SimulatedInventory → ℤ) (minimum : ℤ)
    (inventory : Inventory)
    → AreAll S inventory
    → All (IsCandidate quantity minimum inventory) (candidates quantity minimum inventory)
candidates-IsCandidate S quantity minimum inventory h =
    rows-IsCandidate quantity minimum inventory inventory (
      AllEntries-map inventory
        (λ p positions both.
          AllEntries-map positions
            (λ z position found. entry_found p z position positions inventory both.1 found)
            (IsDict-lookup positions both.0.0))
        (AllEntries-both _ _ inventory h.1 (IsDict-lookup inventory h.0)))
