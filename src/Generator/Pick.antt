-- ===== src/Generator/Pick.antt =====
-- `_pick_operation`: the weights of the hour, what the load changes of them, and the draw.
use smart_warehouse_platform.Prelude.{
  ℕ, ◌+◌, ◌-◌, ◌/◌, ◌%◌, ℤ, pos, negsuc, ltb, leb, Bool, true, false, ◌&&◌, List, [], ◌∷◌,
  if◌then◌else◌,
}
use smart_warehouse_platform.Generator.State.{Simulation, Source}
use smart_warehouse_platform.Generator.Draws.{Gen, draw, pure, raise, look, ◌>>=◌}
use smart_warehouse_platform.Generator.Stock.{is_load_above, is_load_below}
use smart_warehouse_platform.Generator.Build.{
  Operation, receive, shipped, move, reserve, release, count, order_created, order_completed,
}

-- `event_time.hour`, in UTC.
unfoldable pub hour_of : ℤ → ℕ
hour_of (pos ms) = ms / 3_600_000 % 24
hour_of (negsuc ms) = 23 - ms / 3_600_000 % 24

abbrev pub Weights : Type 0
Weights = List (Operation × ℕ)

abbrev morning_weights : Weights
morning_weights =
    (receive, 34)
    ∷ (move, 18)
    ∷ (count, 10)
    ∷ (order_created, 12)
    ∷ (reserve, 10)
    ∷ (shipped, 10)
    ∷ (order_completed, 6)
    ∷ []

abbrev day_weights : Weights
day_weights =
    (order_created, 26)
    ∷ (shipped, 22)
    ∷ (move, 14)
    ∷ (reserve, 14)
    ∷ (release, 8)
    ∷ (order_completed, 12)
    ∷ (receive, 8)
    ∷ []

abbrev evening_weights : Weights
evening_weights =
    (shipped, 22)
    ∷ (order_completed, 18)
    ∷ (release, 14)
    ∷ (move, 10)
    ∷ (count, 8)
    ∷ (receive, 10)
    ∷ (order_created, 18)
    ∷ []

abbrev night_weights : Weights
night_weights =
    (receive, 20)
    ∷ (move, 12)
    ∷ (count, 14)
    ∷ (shipped, 10)
    ∷ (order_created, 8)
    ∷ (order_completed, 6)
    ∷ []

unfoldable pub weights_of : ℕ → Weights
weights_of hour =
    if leb 6 hour && ltb hour 10
    then morning_weights
    else (if leb 10 hour && ltb hour 18
        then day_weights
        else (if leb 18 hour && ltb hour 23 then evening_weights else night_weights))

abbrev pub max_ℕ : ℕ → ℕ → ℕ
max_ℕ a b = if ltb a b then b else a

-- `operation is self._build_receive_event`: an access of a method makes a new object, so none is
-- the same as one that an earlier access has made.
abbrev pub is_the_receive_event : Operation → Bool
is_the_receive_event operation = false

-- `operation in {self._build_shipped_event, self._build_order_completed_event}`, which compares
-- with `==`.
abbrev pub is_outgoing : Operation → Bool
is_outgoing shipped = true
is_outgoing order_completed = true
is_outgoing _ = false

unfoldable pub at_high_load : Weights → Weights
at_high_load [] = []
at_high_load ((operation, weight) ∷ rest) =
    let lowered = if is_the_receive_event operation then max_ℕ 2 (weight - 18) else weight in
    (operation, if is_outgoing operation then lowered + 10 else lowered) ∷ at_high_load rest

unfoldable pub at_low_load : Weights → Weights
at_low_load [] = []
at_low_load ((operation, weight) ∷ rest) =
    (operation, if is_the_receive_event operation then weight + 12 else max_ℕ 2 (weight - 4))
    ∷ at_low_load rest

unfoldable pub weights_at : ℤ → Simulation → Weights
unfolding weights_of
weights_at event_time sim =
    let weights = weights_of (hour_of event_time) in
    if is_load_above 72 sim.inventory
    then at_high_load weights
    else (if is_load_below 22 sim.inventory then at_low_load weights else weights)

abbrev pub sum_of : Weights → ℕ
sum_of [] = 0
sum_of ((operation, weight) ∷ rest) = weight + sum_of rest

-- The bisection of `choices` in the cumulative weights, which stops at the last.
abbrev pub weighted : ℕ → Operation → Weights → Operation
weighted n last [] = last
weighted n last ((operation, weight) ∷ rest) =
    if ltb n weight then operation else weighted (n - weight) operation rest

-- `self._rng.choices(choices, weights=weights_only, k=1)[0]`: an IndexError if there is none, a
-- ValueError if the weights sum to 0.
unfoldable pub choices : Source → Weights → Gen Operation
unfolding draw
choices source [] = raise
choices source ((operation, weight) ∷ rest) =
    let sum = sum_of ((operation, weight) ∷ rest) in
    if ltb 0 sum
    then (draw source >>= λ n. pure (weighted (n % sum) operation ((operation, weight) ∷ rest)))
    else raise

unfoldable pub pick_operation : Source → ℤ → Gen Operation
unfolding weights_at choices
pick_operation source event_time =
    look (weights_at event_time) >>= λ weights. choices source weights
