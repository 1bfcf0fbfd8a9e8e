-- ===== src/Generator/Chance.antt =====
-- The draws never fail on a proper range or list, and stay in it.
use smart_warehouse_platform.Prelude.{
  ℕ, suc, ◌%◌, ℤ, pos, pos_part, ◌+ℤ◌, ◌-ℤ◌, ◌≤ℤ◌, ge→ltb_ℤ, List, [], ◌∷◌, length, All, All-nth,
  arith, +ℤ_parts, -ℤ_parts, ◌≢◌, refl,
}
use smart_warehouse_platform.Generator.State.{Simulation, Source}
use smart_warehouse_platform.Generator.Draws.{draw, new_uuid, choice, randint, chance, shuffle}
use smart_warehouse_platform.Generator.Logic.{Triple, Triple-bind, Triple-pure}

-- Drawing a number or an id leaves `P` as it is.
abbrev pub Unused : (Simulation → Type 0) → Type 0
Unused P =
    (sim : Simulation) (drawn issued : ℕ)
    → P sim
    → P (record sim { drawn = drawn; issued = issued })

offset_bounds :
    (lo hi : ℤ) (n : ℕ)
    → lo ≤ℤ hi
    → (lo ≤ℤ lo +ℤ pos (n % suc (pos_part (hi -ℤ lo))))
      × (lo +ℤ pos (n % suc (pos_part (hi -ℤ lo))) ≤ℤ hi)
offset_bounds lo hi n h =
    ground (arith, +ℤ_parts lo (pos (n % suc (pos_part (hi -ℤ lo)))), -ℤ_parts hi lo)

module _ {P : Simulation → Type 0} (source : Source) (unused : Unused P) where
  pub Triple-draw : Triple P (draw source) (λ n sim. P sim)
  unfolding draw
  Triple-draw = record { run = λ sim p. unused sim (suc sim.drawn) sim.issued p }

  pub Triple-new_uuid : Triple P (new_uuid source) (λ s sim. P sim)
  unfolding new_uuid
  Triple-new_uuid = record { run = λ sim p. unused sim sim.drawn (suc sim.issued) p }

  pub Triple-choice {ℓ} :
      {A : Type ℓ} (H : A → Type 0) (x : A) (xs : List A)
      → All H (x ∷ xs)
      → Triple P (choice source (x ∷ xs)) (λ a sim. P sim × H a)
  unfolding choice
  Triple-choice H x xs h =
      Triple-bind Triple-draw
        (λ n. Triple-pure _ (λ sim p. (p, All-nth H x xs (n % suc (length xs)) h.0 h.1)))

  pub Triple-choice_any {ℓ} :
      {A : Type ℓ} (xs : List A) → xs ≢ [] → Triple P (choice source xs) (λ a sim. P sim)
  unfolding choice
  Triple-choice_any [] h = elim (h refl) [ ]
  Triple-choice_any (x ∷ xs) h = Triple-bind Triple-draw (λ n. Triple-pure _ (λ sim p. p))

  pub Triple-randint :
      (lo hi : ℤ)
      → lo ≤ℤ hi
      → Triple P (randint source lo hi) (λ n sim. P sim × (lo ≤ℤ n) × (n ≤ℤ hi))
  unfolding randint
  Triple-randint lo hi h = rw (ge→ltb_ℤ hi lo h) (
      Triple-bind Triple-draw (λ n.
        Triple-pure _ (λ sim p. (p, (offset_bounds lo hi n h).0, (offset_bounds lo hi n h).1))))

  pub Triple-chance : (hundredths : ℕ) → Triple P (chance source hundredths) (λ b sim. P sim)
  unfolding chance
  Triple-chance hundredths = Triple-bind Triple-draw (λ n. Triple-pure _ (λ sim p. p))

  pub Triple-shuffle {ℓ} :
      {A : Type ℓ} (xs : List A) → Triple P (shuffle source xs) (λ ys sim. P sim)
  unfolding shuffle
  Triple-shuffle [] = Triple-pure _ (λ sim p. p)
  Triple-shuffle (x ∷ xs) =
      Triple-bind (Triple-shuffle xs)
        (λ ys. Triple-bind Triple-draw (λ n. Triple-pure _ (λ sim p. p)))
