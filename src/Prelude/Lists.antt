-- ===== src/Prelude/Lists.antt =====
-- Lists over the native numbers, and Python's order on integers.
use smart_warehouse_platform.Prelude.Int.{ℤ, ltb_ℤ}
use smart_warehouse_platform.Prelude.Tests.{if◌then◌else◌}
use Prim.Native.Nat.{ℕ, zero, suc}
use mathlib.Core.List.{List, [], ◌∷◌, ◌++◌}
use mathlib.Core.Path.{◌≡◌, refl, ap}

module _ {ℓ} {A : Type ℓ} where
  abbrev pub length : List A → ℕ
  length [] = 0
  length (x ∷ xs) = suc (length xs)

  pub length_snoc : (xs : List A) (x : A) → length (xs ++ x ∷ []) ≡ suc (length xs)
  length_snoc [] x = refl
  length_snoc (y ∷ xs) x = ap suc (length_snoc xs x)

  -- The element at a position of `x ∷ xs`; past its end, `x`.
  abbrev pub nth : A → List A → ℕ → A
  nth x xs zero = x
  nth x [] (suc n) = x
  nth x (y ∷ ys) (suc n) = nth y ys n

  abbrev pub All {κ} : (A → Type κ) → List A → Type κ
  All P [] = Unit
  All P (x ∷ xs) = P x × All P xs

  pub All-nth {κ} : (P : A → Type κ) (x : A) (xs : List A) (n : ℕ) → P x → All P xs → P (nth x xs n)
  All-nth P x xs zero h hs = h
  All-nth P x [] (suc n) h hs = h
  All-nth P x (y ∷ ys) (suc n) h hs = All-nth P y ys n hs.0 hs.1

module _ {ℓ κ μ} {A : Type ℓ} (P : A → Type κ) (Q : A → Type μ) where
  pub All-map : (xs : List A) → ((x : A) → P x → Q x) → All P xs → All Q xs
  All-map [] f h = tt
  All-map (x ∷ xs) f h = (f x h.0, All-map xs f h.1)

module _ {ℓ κ} {A : Type ℓ} (P : A → Type κ) where
  pub All-++ : (xs ys : List A) → All P xs → All P ys → All P (xs ++ ys)
  All-++ [] ys h k = k
  All-++ (x ∷ xs) ys h k = (h.0, All-++ xs ys h.1 k)

-- Python's `min(a, b)`, which keeps `a` in a tie.
abbrev pub min_ℤ : ℤ → ℤ → ℤ
min_ℤ a b = if ltb_ℤ b a then b else a
