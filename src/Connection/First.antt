-- ===== src/Connection/First.antt =====
-- The loop stops at the first attempt that connects.
use smart_warehouse_platform.Prelude.{
  ℕ, zero, suc, ◌+◌, ◌≤◌, ◌<◌, List, [], ◌∷◌, ◌++◌, Option, none, some, ◌≡◌, ◌≢◌, refl, arith, inl,
  inr, subst, Bool-cases,
}
use smart_warehouse_platform.Prelude.Eq.{◌==◌, nat_eq, eq_of_beq, ne_of_beq}
use smart_warehouse_platform.Connection.{
  Attempt, Connecting, no_cluster, no_session, connected, attempts,
}

-- The first of the attempts `n` to `n + left - 1` that connects, or that there is none.
abbrev pub IsFirst : (ℕ → Attempt) → ℕ → ℕ → Option ℕ → Type 0
IsFirst tries left n none = (i : ℕ) → n ≤ i → i < n + left → tries i ≢ connected
IsFirst tries left n (some m) =
    (n ≤ m)
    × (m < n + left)
    × (tries m ≡ connected)
    × ((i : ℕ) → n ≤ i → i < m → tries i ≢ connected)

passes :
    (tries : ℕ → Attempt) (n i : ℕ)
    → tries n ≢ connected
    → (suc n ≤ i → tries i ≢ connected)
    → n ≤ i
    → tries i ≢ connected
passes tries n i h next low = elim (Bool-cases (n == i)) [
  | inl e ↦ subst (λ k. tries k ≢ connected) (eq_of_beq n i e) h
  | inr e ↦ next (ground (arith, ne_of_beq n i e))
]

later :
    (tries : ℕ → Attempt) (left n : ℕ) (found : Option ℕ)
    → tries n ≢ connected
    → IsFirst tries left (suc n) found
    → IsFirst tries (suc left) n found
later tries left n none h first =
    λ i low high. passes tries n i h (λ above. first i above (omega arith)) low
later tries left n (some m) h first = (
  omega arith,
  omega arith,
  first.2,
  λ i low high. passes tries n i h (λ above. first.3 i above high) low,
)

module _ (tries : ℕ → Attempt) where
  FirstOf : ℕ → ℕ → Connecting → Type 0
  FirstOf left n c = IsFirst tries left n (c.0)

  goes_on :
      (left n : ℕ) (c : Connecting)
      → tries n ≢ connected
      → FirstOf left (suc n) c
      → FirstOf (suc left) n c
  unfolding FirstOf
  goes_on left n c h first = later tries left n (c.0) h first

  stops : (left n : ℕ) (made : List ℕ) → tries n ≡ connected → FirstOf (suc left) n (some n, made)
  unfolding FirstOf
  stops left n made e = (omega arith, omega arith, e, λ i low high. absurd (omega arith))

  step :
      (a : Attempt) (left n : ℕ) (made : List ℕ)
      → tries n ≡ a
      → ((rest : List ℕ) → FirstOf left (suc n) (attempts tries left (suc n) rest))
      → FirstOf (suc left) n (attempts tries (suc left) n made)
  unfolding attempts
  step no_cluster left n made e first = rw (e, attempts) (goes_on left n _ (λ c. cc) (first made))
  step no_session left n made e first =
      rw (e, attempts) (goes_on left n _ (λ c. cc) (first (made ++ n ∷ [])))
  step connected left n made e first = rw (e, attempts) (stops left n (made ++ n ∷ []) e)

  pub attempts-IsFirst :
      (left n : ℕ) (made : List ℕ) → IsFirst tries left n ((attempts tries left n made).0)
  unfolding attempts FirstOf
  attempts-IsFirst zero n made = λ i low high. absurd (omega arith)
  attempts-IsFirst (suc left) n made =
      step (tries n) left n made refl (attempts-IsFirst left (suc n))
