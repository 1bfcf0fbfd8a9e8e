-- ===== src/Generator/Picked.antt =====
-- What the picks of a position give, in a stock that is kept at hand.
use smart_warehouse_platform.Prelude.{ℤ, List, [], ◌∷◌, Option, none, some, All, ◌≡◌, refl, subst}
use smart_warehouse_platform.Domain.Value.{Fields}
use smart_warehouse_platform.Generator.State.{SimulatedInventory, Inventory, Simulation, Source}
use smart_warehouse_platform.Generator.Draws.{Gen, look, ◌>>=◌}
use smart_warehouse_platform.Generator.Stock.{
  position_of, Candidate, candidates, choose_candidate, pick_inventory_with_available,
  pick_inventory_with_reserved,
}
use smart_warehouse_platform.Generator.Positions.{AreAll, IsCandidate, candidates-IsCandidate}
use smart_warehouse_platform.Generator.Logic.{
  Triple, Triple-bind, Triple-pure, Triple-look, Triple-weaken,
}
use smart_warehouse_platform.Generator.Chance.{Triple-choice}
use smart_warehouse_platform.Generator.Held.{IsSound, IsSteady, Holds}
use smart_warehouse_platform.Generator.Applied.{EventAndSteady}
use smart_warehouse_platform.Generator.Build.{returning, unless_none}

-- The stock is `inventory`.
abbrev pub At : Inventory → Simulation → Type 0
At inventory sim = IsSteady sim × (sim.inventory ≡ inventory)

pub Triple-here {ℓ} :
    {A : Type ℓ} {Q : A → Simulation → Type 0} {step : Gen A}
    → ((inventory : Inventory) → Triple (At inventory) step Q)
    → Triple IsSteady step Q
Triple-here h = record { run = λ sim p. (h sim.inventory).run sim (p, refl) }

-- An event, if there is one, and the stock is kept.
abbrev pub MaybeEvent : Option Fields → Simulation → Type 0
MaybeEvent none sim = IsSteady sim
MaybeEvent (some event) sim = EventAndSteady event sim

pub Triple-returning :
    {P : Simulation → Type 0} {step : Gen Fields}
    → Triple P step EventAndSteady
    → Triple P (returning step) MaybeEvent
Triple-returning h = Triple-bind h (λ event. Triple-pure _ (λ sim k. k))

abbrev pub Given {ℓ} : {A : Type ℓ} → (A → Type 0) → Option A → Type 0
Given H none = Unit
Given H (some a) = H a

-- The cases of `if choice is None`.
pub Triple-cases {ℓ κ} :
    {A : Type ℓ} {B : Type κ} {P : Simulation → Type 0} {H : A → Type 0}
    {Q : B → Simulation → Type 0} {step : Gen B} {next : A → Gen B}
    → Triple P step Q
    → ((a : A) → H a → Triple P (next a) Q)
    → (found : Option A)
    → Triple (λ sim. P sim × Given H found) (elim found [ none ↦ step | some a ↦ next a ]) Q
Triple-cases h k none = Triple-weaken (λ sim p. p.0) h
Triple-cases h k (some a) = record { run = λ sim p. (k a p.1).run sim p.0 }

pub Triple-unless_none {ℓ} :
    {A : Type ℓ} {P : Simulation → Type 0} {H : A → Type 0} {step : Gen (Option A)}
    {next : A → Gen (Option Fields)}
    → ((sim : Simulation) → P sim → IsSteady sim)
    → Triple P step (λ found sim. P sim × Given H found)
    → ((a : A) → H a → Triple P (next a) MaybeEvent)
    → Triple P (unless_none step next) MaybeEvent
Triple-unless_none {P} {H} {next} steady h k =
    Triple-bind h (Triple-cases (Triple-pure none steady) k)

module _ (source : Source) (inventory : Inventory) where
  choose_candidate-Given :
      (H : Candidate → Type 0) (found : List Candidate)
      → All H found
      → Triple
          (At inventory)
          (choose_candidate source found)
          (λ chosen sim. At inventory sim × Given H chosen)
  choose_candidate-Given H [] h = Triple-pure _ (λ sim p. (p, tt))
  choose_candidate-Given H (c ∷ cs) h =
      Triple-bind (Triple-choice source (λ sim drawn issued p. p) H c cs h)
        (λ chosen. Triple-pure _ (λ sim p. p))

  module _ (quantity : SimulatedInventory → ℤ) (minimum : ℤ) where
    found-IsCandidate :
        (sim : Simulation)
        → At inventory sim
        → All (IsCandidate quantity minimum inventory) (candidates quantity minimum sim.inventory)
    found-IsCandidate sim h = rw h.1 (
        candidates-IsCandidate IsSound quantity minimum inventory
          (subst (AreAll IsSound) h.1 h.0.0))

    pick-Given :
        Triple
          (At inventory)
          (look (λ sim. candidates quantity minimum sim.inventory) >>= λ found.
            choose_candidate source found)
          (λ chosen sim. At inventory sim × Given (IsCandidate quantity minimum inventory) chosen)
    pick-Given =
        Triple-bind
          (Triple-look
            {Q = λ found sim. At inventory sim × All (IsCandidate quantity minimum inventory) found}
            _ (λ sim h. (h, found-IsCandidate sim h)))
          (λ found. record {
            run = λ sim h.
                (choose_candidate-Given (IsCandidate quantity minimum inventory) found h.1).run sim
                  h.0;
          })

  pub pick_inventory_with_available-Given :
      (minimum : ℤ)
      → Triple (At inventory) (pick_inventory_with_available source minimum) (λ chosen sim.
        At inventory sim
        × Given (IsCandidate (λ position. position.available) minimum inventory) chosen)
  unfolding pick_inventory_with_available
  pick_inventory_with_available-Given minimum = pick-Given (λ position. position.available) minimum

  pub pick_inventory_with_reserved-Given :
      (minimum : ℤ)
      → Triple (At inventory) (pick_inventory_with_reserved source minimum) (λ chosen sim.
        At inventory sim
        × Given (IsCandidate (λ position. position.reserved_manual) minimum inventory) chosen)
  unfolding pick_inventory_with_reserved
  pick_inventory_with_reserved-Given minimum =
      pick-Given (λ position. position.reserved_manual) minimum

-- What is known of the candidate's position holds of the stock's.
pub At-Holds :
    (H : SimulatedInventory → Type 0) (c : Candidate) (inventory : Inventory) (sim : Simulation)
    → position_of c.product_id c.zone_id inventory ≡ c.position
    → H c.position
    → At inventory sim
    → Holds H c.product_id c.zone_id sim
At-Holds H c inventory sim same h at = (at.0, rw at.1 (rw same h))
