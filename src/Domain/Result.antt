-- ===== src/Domain/Result.antt =====
-- Results and errors of consumer_service/app/domain/models.py. A message is kept as the arguments
-- that its f-string prints.
use smart_warehouse_platform.Prelude.{String, ℤ, Option, ◌≡◌, refl}
use smart_warehouse_platform.Domain.Value.{Value}

-- The strings that the code passes as `error_code`.
pub data ErrorCode : Type 0 where
  unknown_event_type : ErrorCode
  insufficient_available insufficient_reserved : ErrorCode
  invalid_move : ErrorCode
  order_already_exists order_not_found order_not_completable empty_order : ErrorCode
  negative_totals : ErrorCode
  zone_not_found zone_capacity_exceeded : ErrorCode
  missing_field validation_error : ErrorCode
  -- of `ProcessResult` only
  stale_event : ErrorCode
  -- the fallback of the worker, `DLQ_ERROR`
  dlq_error : ErrorCode

pub data Message : Type 0 where
  unsupported_event_type : String → Message
  -- the stock, and the quantity asked for
  below_shipment below_reserve below_move below_release reserved_below_shipment : ℤ → ℤ → Message
  same_zone : Message
  order_exists order_missing : String → Message
  order_has_status : String → String → Message
  no_items : Message
  totals_negative : String → Message
  no_zone : String → Message
  -- the zone, its capacity and the total
  over_capacity : String → ℤ → ℤ → Message
  not_text : String → Message
  not_positive not_non_negative : String → Value → Message
  older_event_ignored : Message
  unknown_error : Message

pub record DomainValidationError : Type 0 where
  pub error_code : ErrorCode
  pub message : Message

pub data Action : Type 0 where
  applied duplicate stale dlq : Action

pub record ProcessResult : Type 0 where
  pub action : Action
  pub outcome : String
  pub error_code : Option ErrorCode
  pub error_reason : Option Message

-- What a method returns: a value, a `DomainValidationError`, or any other exception.
pub data Result {ℓ} (A : Type ℓ) : Type ℓ where
  ok : A → Result A
  invalid : DomainValidationError → Result A
  crashed : Result A

-- `raise DomainValidationError(code, message)`
abbrev pub raise {ℓ} : {A : Type ℓ} → ErrorCode → Message → Result A
raise code message = invalid (record { error_code = code; message = message })

-- One step after the other: an exception ends the chain.
infixl 5 ◌>>=◌
abbrev pub ◌>>=◌ {ℓ κ} : {A : Type ℓ} {B : Type κ} → Result A → (A → Result B) → Result B
crashed >>= next = crashed
invalid error >>= next = invalid error
ok value >>= next = next value

-- A step whose value nothing needs, such as a check.
infixl 5 ◌>>◌
abbrev pub ◌>>◌ {ℓ} : {B : Type ℓ} → Result (Unit {0}) → Result B → Result B
check >> rest = check >>= λ _. rest

-- If a chain returned, so did its first step, and the rest from there.
pub >>=-eq-ok {ℓ κ} :
    {A : Type ℓ} {B : Type κ} (first : Result A) (next : A → Result B) {value : B}
    → (first >>= next) ≡ ok value
    → (x : A) × (first ≡ ok x) × (next x ≡ ok value)
>>=-eq-ok crashed next done = cc
>>=-eq-ok (invalid error) next done = cc
>>=-eq-ok (ok x) next done = (x, refl, done)
