-- ===== src/Generator/Logic.antt =====
-- Steps of the generator that end without an exception: what holds before one and what after it.
use smart_warehouse_platform.Prelude.{
  Bool, true, false, Option, none, some, ◌≡◌, refl, if◌then◌else◌,
}
use smart_warehouse_platform.Generator.State.{Simulation}
use smart_warehouse_platform.Generator.Draws.{Gen, pure, look, change, ◌>>=◌}

module _ {ℓ} {A : Type ℓ} where
  abbrev pub Post : (A → Simulation → Type 0) → Option (A × Simulation) → Type 0
  Post Q none = ⊥
  Post Q (some (a, sim)) = Q a sim

  -- From a state with `P`, the step returns, and `Q` holds of what it returns and leaves.
  pub record Triple (P : Simulation → Type 0) (step : Gen A) (Q : A → Simulation → Type 0)
      : Type ℓ where
    pub run : (sim : Simulation) → P sim → Post Q (step sim)

  pub Post-get :
      (Q : A → Simulation → Type 0) (o : Option (A × Simulation))
      → Post Q o
      → (found : A × Simulation) × (o ≡ some found) × Q (found.0) (found.1)
  Post-get Q none h = elim h [ ]
  Post-get Q (some (a, sim)) h = ((a, sim), refl, h)

Post-bind {ℓ κ} :
    {A : Type ℓ} {B : Type κ} (R : A → Simulation → Type 0) (Q : B → Simulation → Type 0)
    (next : A → Gen B) (o : Option (A × Simulation))
    → ((a : A) (sim : Simulation) → R a sim → Post Q (next a sim))
    → Post R o
    → Post Q (elim o [ none ↦ none | some (value, later) ↦ next value later ])
Post-bind R Q next none h r = r
Post-bind R Q next (some (a, sim)) h r = h a sim r

pub Triple-bind {ℓ κ} :
    {A : Type ℓ} {B : Type κ} {P : Simulation → Type 0} {Q : B → Simulation → Type 0}
    {R : A → Simulation → Type 0} {step : Gen A} {next : A → Gen B}
    → Triple P step R
    → ((a : A) → Triple (R a) (next a) Q)
    → Triple P (step >>= next) Q
unfolding ◌>>=◌
Triple-bind {Q} {R} {step} {next} h hs = record {
  run = λ sim p. Post-bind R Q next (step sim) (λ a. (hs a).run) (h.run sim p);
}

module _ {ℓ} {A : Type ℓ} {P : Simulation → Type 0} {Q : A → Simulation → Type 0} where
  pub Triple-pure : (a : A) → ((sim : Simulation) → P sim → Q a sim) → Triple P (pure a) Q
  unfolding pure
  Triple-pure a h = record { run = h }

  pub Triple-look :
      (f : Simulation → A) → ((sim : Simulation) → P sim → Q (f sim) sim) → Triple P (look f) Q
  unfolding look
  Triple-look f h = record { run = h }

  pub Triple-if :
      {b : Bool} {step other : Gen A}
      → (b ≡ true → Triple P step Q)
      → (b ≡ false → Triple P other Q)
      → Triple P (if b then step else other) Q
  Triple-if {b = true} h k = h refl
  Triple-if {b = false} h k = k refl

  pub Triple-option {κ} :
      {B : Type κ} {o : Option B} {step : Gen A} {next : B → Gen A}
      → (o ≡ none → Triple P step Q)
      → ((b : B) → o ≡ some b → Triple P (next b) Q)
      → Triple P (elim o [ none ↦ step | some b ↦ next b ]) Q
  Triple-option {o = none} h k = h refl
  Triple-option {o = some b} h k = k b refl

  -- A fact that the state gives.
  pub Triple-given {κ} :
      {H : Type κ} {step : Gen A}
      → ((sim : Simulation) → P sim → H)
      → (H → Triple P step Q)
      → Triple P step Q
  Triple-given h hs = record { run = λ sim p. (hs (h sim p)).run sim p }

  pub Triple-weaken :
      {R : Simulation → Type 0} {step : Gen A}
      → ((sim : Simulation) → R sim → P sim)
      → Triple P step Q
      → Triple R step Q
  Triple-weaken h hs = record { run = λ sim r. hs.run sim (h sim r) }

pub Triple-change :
    {P : Simulation → Type 0} {Q : Unit {0} → Simulation → Type 0} (f : Simulation → Simulation)
    → ((sim : Simulation) → P sim → Q tt (f sim))
    → Triple P (change f) Q
unfolding change
Triple-change f h = record { run = h }
