-- ===== src/Prelude/Dicts.antt =====
-- Python's `dict`, in insertion order, and its set of keys.
use smart_warehouse_platform.Prelude.Tests.{if◌then◌else◌}
use smart_warehouse_platform.Prelude.Eq.{Eq, ◌==◌, beq_refl}
use mathlib.Core.Path.{◌≡◌, refl}
use mathlib.Core.Bool.{Bool, true, false, ◌||◌}
use mathlib.Core.Option.{Option, none, some}
use mathlib.Core.List.{List, [], ◌∷◌, ◌++◌, append-nil}
use native.Mathlib.Omega.{arith}

abbrev pub Dict {ℓ κ} : Type ℓ → Type κ → Type (ℓ ⊔ κ)
Dict K V = List (K × V)

module _ {ℓ} {K : Type ℓ} ⦃e : Eq K⦄ where
  -- `k in ks`
  abbrev pub contains : List K → K → Bool
  contains [] k = false
  contains (j ∷ ks) k = j == k || contains ks k

  abbrev pub missing : List K → List K → List K
  missing js [] = []
  missing js (k ∷ ks) = let rest = missing js ks in if contains js k then rest else k ∷ rest

  -- `set(js) | set(ks)` of two dicts' keys: those of the first, then the new ones of the second.
  abbrev pub union : List K → List K → List K
  union js ks = js ++ missing js ks

pub or_true : (b : Bool) → (b || true) ≡ true
or_true b = ground arith

module _ {ℓ κ} {K : Type ℓ} {V : Type κ} where
  -- `list(d.values())`
  abbrev pub values : Dict K V → List V
  values [] = []
  values ((k, v) ∷ d) = v ∷ values d

  abbrev pub keys : Dict K V → List K
  keys [] = []
  keys ((k, v) ∷ d) = k ∷ keys d

module _ {ℓ κ} {K : Type ℓ} {V : Type κ} ⦃e : Eq K⦄ where
  -- `d.get(k)`
  abbrev pub lookup : K → Dict K V → Option V
  lookup k [] = none
  lookup k ((j, v) ∷ d) = if j == k then some v else lookup k d

  -- `d[k] = v`
  abbrev pub insert : K → V → Dict K V → Dict K V
  insert k v [] = (k, v) ∷ []
  insert k v ((j, w) ∷ d) = if j == k then (j, v) ∷ d else (j, w) ∷ insert k v d

  -- `del d[k]`
  abbrev pub remove : K → Dict K V → Dict K V
  remove k [] = []
  remove k ((j, w) ∷ d) = let rest = remove k d in if j == k then d else (j, w) ∷ rest

  -- A new key goes to the end.
  pub insert_fresh :
      (k : K) (v : V) (d : Dict K V) → lookup k d ≡ none → insert k v d ≡ d ++ (k, v) ∷ []
  insert_fresh k v [] h = refl
  insert_fresh k v ((j, w) ∷ d) h = ground (arith, insert_fresh k v d)

  pub lookup-insert :
      (k j : K) (v : V) (d : Dict K V)
      → lookup j (insert k v d) ≡ (if k == j then some v else lookup j d)
  lookup-insert k j v [] = refl
  lookup-insert k j v ((i, w) ∷ d) =
      ground (arith, e.beq_iff k j, e.beq_iff i k, e.beq_iff i j, lookup-insert k j v d)

module _ {ℓ} {K : Type ℓ} ⦃e : Eq K⦄ where
  abbrev AreIn : List K → List K → Type 0
  AreIn js [] = Unit
  AreIn js (k ∷ ks) = (contains js k ≡ true) × AreIn js ks

  AreIn-cons : (j : K) (js ks : List K) → AreIn js ks → AreIn (j ∷ js) ks
  AreIn-cons j js [] h = tt
  AreIn-cons j js (k ∷ ks) h = (rw h.0 (or_true (j == k)), AreIn-cons j js ks h.1)

  AreIn-refl : (ks : List K) → AreIn ks ks
  AreIn-refl [] = tt
  AreIn-refl (k ∷ ks) = (rw (beq_refl k) refl, AreIn-cons k ks ks (AreIn-refl ks))

  missing_none : (js ks : List K) → AreIn js ks → missing js ks ≡ []
  missing_none js [] h = refl
  missing_none js (k ∷ ks) h = rw (h.0) (missing_none js ks h.1)

  -- The union of a set with itself.
  pub union_self : (ks : List K) → union ks ks ≡ ks
  union_self ks = rw (missing_none ks ks (AreIn-refl ks)) (append-nil ks)

module _ {ℓ κ} {K : Type ℓ} {V : Type κ} ⦃e : Eq K⦄ where
  -- Every key occurs once, as in any dict.
  abbrev pub IsDict : Dict K V → Type κ
  IsDict [] = Unit
  IsDict ((k, v) ∷ d) = (lookup k d ≡ none) × IsDict d

  pub IsDict-insert : (k : K) (v : V) (d : Dict K V) → IsDict d → IsDict (insert k v d)
  IsDict-insert k v [] h = (refl, tt)
  IsDict-insert k v ((j, w) ∷ d) h =
      ground (arith, IsDict-insert k v d h.1, lookup-insert k j v d, e.beq_iff j k, e.beq_iff k j)

-- What every entry of a dict satisfies.
module _ {ℓ κ} {K : Type ℓ} {V : Type κ} where
  abbrev pub AllEntries {μ} : (K → V → Type μ) → Dict K V → Type μ
  AllEntries P [] = Unit
  AllEntries P ((k, v) ∷ d) = P k v × AllEntries P d

  pub AllEntries-map {μ ν} :
      {P : K → V → Type μ} {Q : K → V → Type ν} (d : Dict K V)
      → ((k : K) (v : V) → P k v → Q k v)
      → AllEntries P d
      → AllEntries Q d
  AllEntries-map [] f h = tt
  AllEntries-map ((k, v) ∷ d) f h = (f k v h.0, AllEntries-map d f h.1)

module _ {ℓ κ} {K : Type ℓ} {V : Type κ} ⦃e : Eq K⦄ where
  pub AllEntries-lookup {μ} :
      (P : K → V → Type μ) (k : K) (v : V) (d : Dict K V)
      → AllEntries P d
      → lookup k d ≡ some v
      → P k v
  AllEntries-lookup P k v [] h found = ground arith
  AllEntries-lookup P k v ((j, w) ∷ d) h found =
      ground (arith, e.beq_iff j k, h.0, AllEntries-lookup P k v d h.1)

  pub AllEntries-insert {μ} :
      (P : K → V → Type μ) (k : K) (v : V) (d : Dict K V)
      → P k v
      → AllEntries P d
      → AllEntries P (insert k v d)
  AllEntries-insert P k v [] p h = (p, tt)
  AllEntries-insert P k v ((j, w) ∷ d) p h =
      ground (arith, e.beq_iff j k, p, h, AllEntries-insert P k v d p h.1)

  pub AllEntries-remove {μ} :
      (P : K → V → Type μ) (k : K) (d : Dict K V) → AllEntries P d → AllEntries P (remove k d)
  AllEntries-remove P k [] h = tt
  AllEntries-remove P k ((j, w) ∷ d) h = ground (arith, h, AllEntries-remove P k d h.1)

  -- In a dict with distinct keys, every entry is found.
  pub IsDict-lookup : (d : Dict K V) → IsDict d → AllEntries (λ k v. lookup k d ≡ some v) d
  IsDict-lookup [] h = tt
  IsDict-lookup ((j, w) ∷ d) h = (
    rw (beq_refl j) refl,
    AllEntries-map d (λ k v found. ground (arith, e.beq_iff j k, h)) (IsDict-lookup d h.1),
  )
