-- ===== src/Domain/Value.antt =====
-- A decoded Kafka event: the values of the Avro schemas (schemas/warehouse_event_v1.avsc and _v2)
-- as the consumer holds them, a `dict[str, Any]`.
use smart_warehouse_platform.Prelude.{
  String, ℤ, pos, int_beq, Bool, true, false, not, if◌then◌else◌,
}
use smart_warehouse_platform.Prelude.Eq.{◌==◌, string_eq}

mutual
  pub data Value : Type 0 where
    null : Value
    int : ℤ → Value
    text : String → Value
    array : Items → Value

  pub data Items : Type 0 where
    nil : Items
    cons : Fields → Items → Items

  -- A dict, as its items in order.
  pub data Fields : Type 0 where
    end : Fields
    field : String → Value → Fields → Fields

-- `event.get(name)`
abbrev pub get : String → Fields → Value
get name end = null
get name (field k v rest) = if k == name then v else get name rest

-- `name in event`
abbrev pub has_field : String → Fields → Bool
has_field name end = false
has_field name (field k v rest) = if k == name then true else has_field name rest

-- Python's truth value of each of these.
abbrev pub is_truthy : Value → Bool
is_truthy null = false
is_truthy (int n) = not (int_beq n (pos 0))
is_truthy (text s) = not (s == "")
is_truthy (array nil) = false
is_truthy (array (cons _ _)) = true

-- Python's `a or b`
abbrev pub or_else : Value → Value → Value
or_else a b = if is_truthy a then a else b
