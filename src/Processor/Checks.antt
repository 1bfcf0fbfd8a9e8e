-- ===== src/Processor/Checks.antt =====
-- The static checks of `EventProcessor` in consumer_service/app/application/processor.py.
use Prim.Native.Char.{code}
use Prim.Native.String.{[], ◌∷◌}
use smart_warehouse_platform.Prelude.{
  ℕ, String, ℤ, pos, ltb_ℤ, int_beq, Bool, true, false, not, ◌&&◌, ◌||◌, List, leb, nat_beq,
  if◌then◌else◌,
}
use smart_warehouse_platform.Domain.Value.{Value, int, text}
use smart_warehouse_platform.Domain.Result.{
  Result, ok, raise, missing_field, validation_error, not_text, not_positive, not_non_negative,
}

-- The characters that `str.strip` removes, by code point.
abbrev pub is_space : ℕ → Bool
is_space c =
    (leb 9 c && leb c 13)
    || (leb 28 c && leb c 32)
    || nat_beq c 0x85
    || nat_beq c 0xa0
    || nat_beq c 0x1680
    || (leb 0x2000 c && leb c 0x200a)
    || nat_beq c 0x2028
    || nat_beq c 0x2029
    || nat_beq c 0x202f
    || nat_beq c 0x205f
    || nat_beq c 0x3000

-- `not value.strip()`
unfoldable pub is_blank : String → Bool
is_blank [] = true
is_blank (c ∷ s) = is_space (code c) && is_blank s

unfoldable pub require_text : Value → String → Result String
require_text (text s) name = if is_blank s then raise missing_field (not_text name) else ok s
require_text _ name = raise missing_field (not_text name)

unfoldable pub require_positive : Value → String → Result ℤ
require_positive (int n) name =
    if ltb_ℤ (pos 0) n then ok n else raise validation_error (not_positive name (int n))
require_positive v name = raise validation_error (not_positive name v)

unfoldable pub require_non_negative : Value → String → Result ℤ
require_non_negative (int n) name =
    if ltb_ℤ n (pos 0) then raise validation_error (not_non_negative name (int n)) else ok n
require_non_negative v name = raise validation_error (not_non_negative name v)

-- One element of `_is_stale`: `last_ts and event_ts < last_ts`.
abbrev pub is_older : ℤ → ℤ → Bool
is_older event_ts last_ts = not (int_beq last_ts (pos 0)) && ltb_ℤ event_ts last_ts

unfoldable pub is_stale : ℤ → List ℤ → Bool
is_stale event_ts List.[] = false
is_stale event_ts (List.◌∷◌ last_ts rest) = is_older event_ts last_ts || is_stale event_ts rest
