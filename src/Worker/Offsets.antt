-- ===== src/Worker/Offsets.antt =====
-- An independent description of a partition's lag, and what the gauge holds after its settings.
use smart_warehouse_platform.Prelude.{
  All, lookup-insert, contains, Dict, pos, negsuc, ◌-◌, -ℤ_parts, none, lookup, insert, ℕ, ℤ, Bool,
  true, false, ◌||◌, ap, List, [], ◌∷◌, Option, some, ◌≡◌, refl, subst, ◌∙◌, arith, Bool-cases, inl,
  inr, if◌then◌else◌,
}
use smart_warehouse_platform.Prelude.Eq.{◌==◌, int_eq, eq_of_beq}
use smart_warehouse_platform.Worker.Refresh.{
  LagAnswers, offsets, lag_of, or_minus_one, lags, set_lags, before_error, all_answer,
}

set_over :
    (v : ℤ → ℤ) (q p : ℤ) (c : Bool) → q ≡ p → (if c then some (v p) else some (v q)) ≡ some (v p)
set_over v q p true e = refl
set_over v q p false e = ap (λ x. some (v x)) e

set_twice :
    (v : ℤ → ℤ) (q p : ℤ) (c : Bool) (rest : Option ℤ)
    → (if c then some (v p) else (if q == p then some (v q) else rest))
      ≡ (if (q == p) || c then some (v p) else rest)
set_twice v q p c rest = elim (Bool-cases (q == p)) [
  | inl e ↦ rw e (set_over v q p c (eq_of_beq q p e))
  | inr e ↦ rw e refl
]

-- The last setting of each partition counts.
pub lookup-set_lags :
    (high : ℤ → ℤ) (committed : Dict ℤ ℤ) (ps : List ℤ) (gauge : Dict ℤ ℤ) (p : ℤ)
    → lookup p (set_lags (lags high committed ps) gauge) ≡ (
        if contains ps p
        then some (lag_of (high p) (or_minus_one (lookup p committed)))
        else lookup p gauge)
unfolding lags
lookup-set_lags high committed [] gauge p = refl
lookup-set_lags high committed (q ∷ ps) gauge p =
    let v : ℤ → ℤ = λ x. lag_of (high x) (or_minus_one (lookup x committed)) in
    let later = lookup-set_lags high committed ps (insert q (v q) gauge) p in
    later
    ∙ ap (λ rest. if contains ps p then some (v p) else rest) (lookup-insert q p (v q) gauge)
    ∙ set_twice v q p (contains ps p) (lookup p gauge)

pub all_answer-before_error :
    (high : ℤ → Option ℕ) (ps : List ℤ) → all_answer high ps ≡ true → before_error high ps ≡ ps
all_answer-before_error high [] h = refl
all_answer-before_error high (p ∷ ps) h = ground (arith, h, all_answer-before_error high ps)

-- The lag of a partition with a high watermark, whose committed offset is none, or negative when
-- Kafka has none: the watermark then, and else how many messages are from the offset to it.
abbrev pub expected_lag : ℕ → Option ℤ → ℤ
expected_lag high none = pos high
expected_lag high (some (negsuc n)) = pos high
expected_lag high (some (pos offset)) = pos (high - offset)

pub lag_of-expected_lag :
    (high : ℕ) (offset : Option ℤ)
    → lag_of (pos high) (or_minus_one offset) ≡ expected_lag high offset
unfolding lag_of
lag_of-expected_lag high none = ground arith
lag_of-expected_lag high (some (negsuc n)) = ground arith
lag_of-expected_lag high (some (pos offset)) = ground (arith, -ℤ_parts (pos high) (pos offset))

abbrev pub first_of : Option ℤ → Option ℤ → Option ℤ
first_of (some x) y = some x
first_of none y = y

-- The offset that was answered for a partition, the last one if it was asked for twice.
abbrev pub committed_at : List ℤ → List ℤ → ℤ → Option ℤ
committed_at (q ∷ qs) (offset ∷ rest) p =
    first_of (committed_at qs rest p) (if q == p then some offset else none)
committed_at _ _ p = none

first_of-if :
    (x y : Option ℤ) (test : Bool) (offset : ℤ)
    → first_of x (if test then some offset else y)
      ≡ first_of (first_of x (if test then some offset else none)) y
first_of-if (some z) y test offset = refl
first_of-if none y true offset = refl
first_of-if none y false offset = refl

pub lookup-offsets :
    (ps committed : List ℤ) (d : Dict ℤ ℤ) (p : ℤ)
    → lookup p (offsets ps committed d) ≡ first_of (committed_at ps committed p) (lookup p d)
lookup-offsets [] committed d p = refl
lookup-offsets (q ∷ qs) [] d p = refl
lookup-offsets (q ∷ qs) (offset ∷ rest) d p =
    lookup-offsets qs rest (insert q offset d) p
    ∙ ap (first_of (committed_at qs rest p)) (lookup-insert q p offset d)
    ∙ first_of-if (committed_at qs rest p) (lookup p d) (q == p) offset

pub first_of-none : (x : Option ℤ) → first_of x none ≡ x
first_of-none none = refl
first_of-none (some x) = refl

-- The client answers the watermark of a partition.
abbrev pub HasWatermark : LagAnswers → ℤ → Type 0
HasWatermark client p = (high : ℕ) × (client.high p ≡ some high)

module _ (client : LagAnswers) where
  pub HasWatermark-all_answer :
      (ps : List ℤ) → All (HasWatermark client) ps → all_answer client.high ps ≡ true
  HasWatermark-all_answer [] h = refl
  HasWatermark-all_answer (p ∷ ps) h = rw h.0.1 (HasWatermark-all_answer ps h.1)

  pub watermark_of :
      (ps : List ℤ) (p : ℤ)
      → All (HasWatermark client) ps
      → contains ps p ≡ true
      → HasWatermark client p
  watermark_of [] p h found = absurd (cc found)
  watermark_of (q ∷ qs) p h found = elim (Bool-cases (q == p)) [
    | inl e ↦ subst (HasWatermark client) (eq_of_beq q p e) h.0
    | inr e ↦ watermark_of qs p h.1 (ground (arith, e, found))
  ]
