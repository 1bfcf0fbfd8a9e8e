-- ===== src/Inventory/Shifts.antt =====
-- How a handler's last steps shift the stock.
use smart_warehouse_platform.Prelude.{
  String, ℤ, pos, ◌+ℤ◌, ◌-ℤ◌, ◌≡◌, refl, List, [], ◌∷◌, none, ◌∙◌, sym, ap, int_laws, parts_of_eq,
  arith, Bool-cases, inl, inr, if◌then◌else◌, Option, Dict, ◌⊎◌, Bool,
}
use smart_warehouse_platform.Prelude.Eq.{◌==◌, string_eq}
use smart_warehouse_platform.Domain.Value.{Value, null, int, text, array, get}
use smart_warehouse_platform.Domain.Models.{
  Instant, InventoryKey, InventoryState, OrderState, EventContext, composite_key, key_eq,
}
use smart_warehouse_platform.Domain.Result.{Result, ok, ProcessResult}
use smart_warehouse_platform.Repository.Schema.{Tables}
use smart_warehouse_platform.Repository.Cql.{Session}
use smart_warehouse_platform.Processor.Checks.{
  require_text, require_positive, require_non_negative, is_stale,
}
use smart_warehouse_platform.Processor.Handlers.{
  stale_result, applied_result, apply_rows, apply_row, require_key,
}
use smart_warehouse_platform.Processor.Rows.{get_inventory}
use smart_warehouse_platform.Inventory.Coherence.{IsCoherent}
use smart_warehouse_platform.Inventory.Consistency.{apply_rows-eq-ok}
use smart_warehouse_platform.Inventory.Deltas.{available, reserved}
use smart_warehouse_platform.Inventory.Ensures.{
  Ensures, Ensures-ok, Ensures-if, Ensures-bind, get_inventory-IsRead,
}
use smart_warehouse_platform.Inventory.Levels.{level, Overwrites, difference, level-put_rows}
use smart_warehouse_platform.Inventory.Effects.{Effect, amount, under}

pub require_text-eq-ok :
    (v : Value) (name : String) {s : String} → require_text v name ≡ ok s → v ≡ text s
unfolding require_text
require_text-eq-ok (text s) name h = ground arith
require_text-eq-ok null name h = cc
require_text-eq-ok (int n) name h = cc
require_text-eq-ok (array a) name h = cc

pub require_positive-eq-ok :
    (v : Value) (name : String) {n : ℤ} → require_positive v name ≡ ok n → v ≡ int n
unfolding require_positive
require_positive-eq-ok (int n) name h = ground arith
require_positive-eq-ok null name h = cc
require_positive-eq-ok (text s) name h = cc
require_positive-eq-ok (array a) name h = cc

pub require_non_negative-eq-ok :
    (v : Value) (name : String) {n : ℤ} → require_non_negative v name ≡ ok n → v ≡ int n
unfolding require_non_negative
require_non_negative-eq-ok (int n) name h = ground arith
require_non_negative-eq-ok null name h = cc
require_non_negative-eq-ok (text s) name h = cc
require_non_negative-eq-ok (array a) name h = cc

-- An amount under a key that has been read.
pub under_key :
    (product zone : Value) (key : InventoryKey)
    → product ≡ text key.product_id
    → zone ≡ text key.zone_id
    → (n : ℤ) (k : InventoryKey) → (if key == k then n else pos 0) ≡ under product zone n k
under_key product zone key p z n k = rw p (rw z refl)

module _ (session : Session) (now : Instant) (context : EventContext) (t : Tables) where
  -- What a handler leaves: nothing changed for an old event, or the stock shifted by an effect.
  abbrev pub Shifts : Effect → ProcessResult × Tables → Type 0
  Shifts e r =
      ((r.0 ≡ stale_result) × (r.1 ≡ t))
      ⊎ ((r.0 ≡ applied_result)
          × ((k : InventoryKey)
              → (level available r.1 k ≡ level available t k +ℤ e.more_available k)
                × (level reserved r.1 k ≡ level reserved t k +ℤ e.more_reserved k)))

  pub stale-Shifts : (e : Effect) → Ensures (Shifts e) (ok (stale_result, t))
  stale-Shifts e = Ensures-ok (stale_result, t) (inl (refl, refl))

  pub apply_rows-Shifts :
      (e : Effect) (cs us : List InventoryState) (uz cz : Dict String (List InventoryState))
      (order : Option OrderState)
      → Overwrites t cs us
      → ((k : InventoryKey) → difference available k cs us ≡ e.more_available k)
      → ((k : InventoryKey) → difference reserved k cs us ≡ e.more_reserved k)
      → Ensures (Shifts e) (apply_rows session now context t cs us uz cz order)
  apply_rows-Shifts e cs us uz cz order over a b = record {
    of = λ r done.
        let (totals, _, _, same, written) =
          apply_rows-eq-ok session now context t cs us uz cz order r.0 r.1 done in
        inr (
          same,
          λ k. (
            ap (λ x. level available x k) written
                ∙ level-put_rows available (λ c x y. x) k t cs us over
                ∙ ap (λ n. level available t k +ℤ n) (a k),
            ap (λ x. level reserved x k) written
                ∙ level-put_rows reserved (λ c x y. y) k t cs us over
                ∙ ap (λ n. level reserved t k +ℤ n) (b k),
          ),
        );
  }

  pub difference_cons :
      (m : InventoryState → ℤ) (c u : InventoryState) (cs us : List InventoryState)
      (key k : InventoryKey) (n : ℤ)
      → composite_key u ≡ key
      → m u -ℤ m c ≡ n
      → difference m k (c ∷ cs) (u ∷ us) ≡ (if key == k then n else pos 0) +ℤ difference m k cs us
  difference_cons m c u cs us key k n same e = elim (Bool-cases (key == k)) [
    | inl b ↦ rw (ap (λ q. q == k) same ∙ b, b) (omega (int_laws, parts_of_eq e))
    | inr b ↦ rw (ap (λ q. q == k) same ∙ b, b) refl
  ]

  pub difference_one :
      (m : InventoryState → ℤ) (c u : InventoryState) (key k : InventoryKey) (n : ℤ)
      → composite_key u ≡ key
      → m u -ℤ m c ≡ n
      → difference m k (c ∷ []) (u ∷ []) ≡ (if key == k then n else pos 0)
  difference_one m c u key k n same e = difference_cons m c u [] [] key k n same e ∙ omega int_laws

  module _ (h : IsCoherent t) (e : Effect) where
    module _ (key : InventoryKey) where
      abbrev current : InventoryState
      current = get_inventory now t key

      pub apply_row-Shifts :
          (u : InventoryState) (a b : ℤ)
          → composite_key u ≡ composite_key current
          → available u -ℤ available current ≡ a
          → reserved u -ℤ reserved current ≡ b
          → ((k : InventoryKey) → (if key == k then a else pos 0) ≡ e.more_available k)
          → ((k : InventoryKey) → (if key == k then b else pos 0) ≡ e.more_reserved k)
          → Ensures (Shifts e) (apply_row session now context t key.zone_id current u)
      unfolding apply_row
      apply_row-Shifts u a b same ea eb ma mr =
          let read = get_inventory-IsRead now t key h in
          let here : composite_key u ≡ key = same ∙ read.0 in
          apply_rows-Shifts e (current ∷ []) (u ∷ []) _ _ none (same, read.1, tt, tt)
            (λ k. difference_one available current u key k a here ea ∙ ma k)
            (λ k. difference_one reserved current u key k b here eb ∙ mr k)

      pub one_row :
          (rest : Result (ProcessResult × Tables))
          → Ensures (Shifts e) rest
          → Ensures (Shifts e) (
              if is_stale context.occurred_at (current.last_event_ts ∷ [])
              then ok (stale_result, t)
              else rest)
      one_row rest f =
          Ensures-if (is_stale context.occurred_at (current.last_event_ts ∷ []))
            (ok (stale_result, t)) rest (λ _. stale-Shifts e) (λ _. f)

  pub if_none : (b : Bool) → (if b then pos 0 else pos 0) ≡ pos 0
  if_none b = ground arith

  abbrev IsNamed : InventoryKey → Type 0
  IsNamed key =
      (get "product_id" context.event ≡ text key.product_id)
      × (get "zone_id" context.event ≡ text key.zone_id)

  require_key-IsNamed : Ensures IsNamed (require_key context)
  unfolding require_key
  require_key-IsNamed =
      Ensures-bind (require_text (get "product_id" context.event) "product_id") _ λ p named_p.
        Ensures-bind (require_text (get "zone_id" context.event) "zone_id") _ λ z named_z.
          Ensures-ok (record { product_id = p; zone_id = z })
            (
              require_text-eq-ok (get "product_id" context.event) "product_id" named_p,
              require_text-eq-ok (get "zone_id" context.event) "zone_id" named_z,
            )

  -- An amount under the key of the event, computed from a number that has been read.
  pub under_event :
      (key : InventoryKey)
      → require_key context ≡ ok key
      → (v : Value) (n : ℤ) → v ≡ int n
      → (f : ℤ → ℤ) (k : InventoryKey)
      → (if key == k then f n else pos 0)
        ≡ under (get "product_id" context.event) (get "zone_id" context.event) (f (amount v)) k
  under_event key found v n e f k =
      let named = require_key-IsNamed.of key found in
      under_key (get "product_id" context.event) (get "zone_id" context.event) key named.0 named.1
        (f n) k
      ∙ ap
          (λ x.
            under (get "product_id" context.event) (get "zone_id" context.event) (f (amount x)) k)
          (sym e)
