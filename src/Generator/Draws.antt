-- ===== src/Generator/Draws.antt =====
-- A step of the generator, and its calls of `random.Random` and `uuid.uuid4`, as Python documents
-- them: any number behind a call is possible.
use smart_warehouse_platform.Prelude.{
  String, ℕ, zero, suc, ◌%◌, ℤ, pos, ◌+ℤ◌, ◌-ℤ◌, pos_part, ltb_ℤ, ltb, Bool, List, [], ◌∷◌, Option,
  none, some, length, nth, if◌then◌else◌,
}
use smart_warehouse_platform.Generator.State.{Simulation, Source}

-- `none` is an exception.
abbrev pub Gen {ℓ} : Type ℓ → Type ℓ
Gen A = Simulation → Option (A × Simulation)

infixl 5 ◌>>=◌ ◌>>◌
unfoldable pub ◌>>=◌ {ℓ κ} : {A : Type ℓ} {B : Type κ} → Gen A → (A → Gen B) → Gen B
◌>>=◌ step next sim = elim (step sim) [ none ↦ none | some (value, later) ↦ next value later ]

abbrev pub ◌>>◌ {ℓ κ} : {A : Type ℓ} {B : Type κ} → Gen A → Gen B → Gen B
step >> next = step >>= λ _. next

unfoldable pub pure {ℓ} : {A : Type ℓ} → A → Gen A
pure value sim = some (value, sim)

unfoldable pub raise {ℓ} : {A : Type ℓ} → Gen A
raise sim = none

-- Reading the stock.
unfoldable pub look {ℓ} : {A : Type ℓ} → (Simulation → A) → Gen A
look f sim = some (f sim, sim)

unfoldable pub change : (Simulation → Simulation) → Gen (Unit {0})
change f sim = some (tt, f sim)

module _ (source : Source) where
  unfoldable pub draw : Gen ℕ
  draw sim = some (source.random sim.drawn, record sim { drawn = suc sim.drawn })

  -- `str(uuid.uuid4())`
  unfoldable pub new_uuid : Gen String
  new_uuid sim = some (source.uuid sim.issued, record sim { issued = suc sim.issued })

  -- `self._rng.choice(xs)`: an IndexError if there is nothing to choose.
  unfoldable pub choice {ℓ} : {A : Type ℓ} → List A → Gen A
  unfolding draw
  choice [] = raise
  choice (x ∷ xs) = draw >>= λ n. pure (nth x xs (n % suc (length xs)))

  -- `self._rng.randint(lo, hi)`: a ValueError for an empty range.
  unfoldable pub randint : ℤ → ℤ → Gen ℤ
  unfolding draw
  randint lo hi =
      if ltb_ℤ hi lo
      then raise
      else (draw >>= λ n. pure (lo +ℤ pos (n % suc (pos_part (hi -ℤ lo)))))

  -- `self._rng.random() < hundredths / 100`
  unfoldable pub chance : ℕ → Gen Bool
  unfolding draw
  chance hundredths = draw >>= λ n. pure (ltb (n % 100) hundredths)

  abbrev insert_at {ℓ} : {A : Type ℓ} → ℕ → A → List A → List A
  insert_at zero x xs = x ∷ xs
  insert_at (suc n) x [] = x ∷ []
  insert_at (suc n) x (y ∷ ys) = y ∷ insert_at n x ys

  -- `self._rng.shuffle(xs)`: each element goes to a random place among those after it.
  unfoldable pub shuffle {ℓ} : {A : Type ℓ} → List A → Gen (List A)
  unfolding draw
  shuffle [] = pure []
  shuffle (x ∷ xs) = shuffle xs >>= λ ys. draw >>= λ n. pure (insert_at (n % suc (length ys)) x ys)
