-- ===== src/Inventory/Ensures.antt =====
-- Postconditions of the chains that the handlers are: what holds of the result if they return one.
use smart_warehouse_platform.Prelude.{
  String, ℤ, pos, ◌≤ℤ◌, ◌≡◌, refl, subst, Bool, true, false, none, some, arith, Option-cases, inl,
  inr, if◌then◌else◌, ◌∙◌, sym,
}
use smart_warehouse_platform.Domain.Value.{Value, null, int, text, array}
use smart_warehouse_platform.Domain.Models.{Instant, InventoryKey, InventoryState, composite_key}
use smart_warehouse_platform.Domain.Result.{
  ErrorCode, Message, Result, ok, invalid, crashed, raise, ◌>>=◌, ◌>>◌,
}
use smart_warehouse_platform.Repository.Schema.{Tables}
use smart_warehouse_platform.Processor.Checks.{require_positive, require_non_negative}
use smart_warehouse_platform.Processor.Rows.{get_inventory, empty_inventory}
use smart_warehouse_platform.Processor.Handlers.{reject_if}
use smart_warehouse_platform.Inventory.Coherence.{IsCoherent, IsStock}
use smart_warehouse_platform.Inventory.Changes.{IsCurrent}

-- `P` holds of what `m` returns, if it returns.
pub record Ensures {ℓ κ} {A : Type ℓ} (P : A → Type κ) (m : Result A) : Type (ℓ ⊔ κ) where
  pub of : (a : A) → m ≡ ok a → P a

module _ {ℓ κ} {A : Type ℓ} {P : A → Type κ} where
  pub Ensures-ok : (a : A) → P a → Ensures P (ok a)
  Ensures-ok a h = record { of = λ b e. subst P (ok_injective e) h }
    where
      ok_injective : {x y : A} → ok x ≡ ok y → x ≡ y
      ok_injective e = cc

  pub Ensures-raise : (code : ErrorCode) (message : Message) → Ensures P (raise code message)
  Ensures-raise code message = record { of = λ b e. absurd (cc) }

  pub Ensures-crashed : Ensures P crashed
  Ensures-crashed = record { of = λ b e. absurd (cc) }

  pub Ensures-if :
      (test : Bool) (m n : Result A)
      → (test ≡ true → Ensures P m)
      → (test ≡ false → Ensures P n)
      → Ensures P (if test then m else n)
  Ensures-if true m n hm hn = hm refl
  Ensures-if false m n hm hn = hn refl

  pub Ensures-reject_if :
      (test : Bool) (code : ErrorCode) (message : Message) (f : Unit {0} → Result A)
      → (test ≡ false → Ensures P (f tt))
      → Ensures P (reject_if test code message >>= f)
  Ensures-reject_if true code message f h = Ensures-raise code message
  Ensures-reject_if false code message f h = h refl

module _ {ℓ ν κ} {A : Type ℓ} {B : Type ν} {P : B → Type κ} where
  -- The rest of a chain may use that its first step returned.
  pub Ensures-bind :
      (m : Result A) (f : A → Result B)
      → ((a : A) → m ≡ ok a → Ensures P (f a))
      → Ensures P (m >>= f)
  Ensures-bind (ok a) f h = h a refl
  Ensures-bind (invalid e) f h = record { of = λ b q. absurd (cc) }
  Ensures-bind crashed f h = record { of = λ b q. absurd (cc) }

module _ {ℓ κ} {A : Type ℓ} {P : A → Type κ} where
  -- A check before the rest only narrows when it runs.
  pub Ensures-then : (m : Result (Unit {0})) (n : Result A) → Ensures P n → Ensures P (m >> n)
  Ensures-then m n h = Ensures-bind m (λ _. n) λ _ _. h

-- What the checks of quantities let through.
pub require_positive-pos :
    (v : Value) (name : String) {n : ℤ} → require_positive v name ≡ ok n → pos 1 ≤ℤ n
unfolding require_positive
require_positive-pos (int n) name h = ground arith
require_positive-pos null name h = cc
require_positive-pos (text s) name h = cc
require_positive-pos (array a) name h = cc

pub require_non_negative-nonneg :
    (v : Value) (name : String) {n : ℤ} → require_non_negative v name ≡ ok n → pos 0 ≤ℤ n
unfolding require_non_negative
require_non_negative-nonneg (int n) name h = ground arith
require_non_negative-nonneg null name h = cc
require_non_negative-nonneg (text s) name h = cc
require_non_negative-nonneg (array a) name h = cc

abbrev IsRead : Tables → InventoryKey → InventoryState → Type 0
IsRead t key c = (composite_key c ≡ key) × IsCurrent t c × IsStock c

module _ (now : Instant) (t : Tables) (key : InventoryKey) where
  get_inventory-none :
      t.inventory_by_product_zone key.product_id key.zone_id ≡ none
      → get_inventory now t key ≡ empty_inventory now key
  unfolding get_inventory
  get_inventory-none e = ground arith

  pub get_inventory-some :
      (row : InventoryState)
      → t.inventory_by_product_zone key.product_id key.zone_id ≡ some row
      → get_inventory now t key ≡ row
  unfolding get_inventory
  get_inventory-some row e = ground arith

  -- The row that a handler reads is the stored one, or an empty one for a key without a row.
  pub get_inventory-IsRead : IsCoherent t → IsRead t key (get_inventory now t key)
  get_inventory-IsRead h =
      elim (Option-cases (t.inventory_by_product_zone key.product_id key.zone_id)) [
        | inl e ↦
            subst (IsRead t key) (sym (get_inventory-none e))
              (refl, inr (e, refl, refl), (omega arith, omega arith))
        | inr (row, e) ↦
            let (p, z) = h.placed key.product_id key.zone_id row e in
            subst (IsRead t key) (sym (get_inventory-some row e)) (
              (λ i. record { product_id = p i; zone_id = z i }),
              inl ((λ i. t.inventory_by_product_zone (p i) (z i)) ∙ e),
              h.stock key.product_id key.zone_id row e,
            )
      ]
