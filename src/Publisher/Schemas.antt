-- ===== src/Publisher/Schemas.antt =====
-- The Avro schemas of schemas/warehouse_event_v1.avsc and warehouse_event_v2.avsc, and the records
-- that the Avro specification lets be written with a schema: every field of the schema has a value
-- of its type, a missing one counting as null, and the record has no other field.
use smart_warehouse_platform.Prelude.{
  ℕ, leb, String, ℤ, pos, negsuc, Bool, true, false, ◌&&◌, ◌||◌, List, [], ◌∷◌, ◌++◌, if◌then◌else◌,
}
use smart_warehouse_platform.Prelude.Eq.{◌==◌, string_eq}
use smart_warehouse_platform.Domain.Value.{
  Value, null, int, text, array, Items, nil, cons, Fields, end, field, get,
}

pub data Primitive : Type 0 where
  string_type int_type long_type : Primitive

-- The types of the two schemas' fields: a primitive one, its union with null, or the union of null
-- and the arrays of a record.
pub data AvroType : Type 0 where
  required optional : Primitive → AvroType
  optional_records : List (String × Primitive) → AvroType

abbrev pub Schema : Type 0
Schema = List (String × AvroType)

abbrev pub order_item : List (String × Primitive)
order_item = ("product_id", string_type) ∷ ("zone_id", string_type) ∷ ("quantity", int_type) ∷ []

abbrev pub warehouse_event_v1 : Schema
warehouse_event_v1 =
    ("event_id", required string_type)
    ∷ ("event_type", required string_type)
    ∷ ("occurred_at", required long_type)
    ∷ ("product_id", optional string_type)
    ∷ ("zone_id", optional string_type)
    ∷ ("quantity", optional int_type)
    ∷ ("from_zone_id", optional string_type)
    ∷ ("to_zone_id", optional string_type)
    ∷ ("counted_quantity", optional int_type)
    ∷ ("order_id", optional string_type)
    ∷ ("items", optional_records order_item)
    ∷ []

abbrev pub warehouse_event_v2 : Schema
warehouse_event_v2 = warehouse_event_v1 ++ (("supplier_id", optional string_type) ∷ [])

-- `self._schemas`, whose other keys raise.
abbrev pub schema_named : String → Schema
schema_named version = if version == "v1" then warehouse_event_v1 else warehouse_event_v2

-- Between -(limit + 1) and limit.
abbrev pub within : ℕ → ℤ → Bool
within limit (pos n) = leb n limit
within limit (negsuc n) = leb n limit

-- An `int` has 32 bits, and a `long` has 64.
abbrev pub is_int : ℤ → Bool
is_int = within 2147483647

abbrev pub is_long : ℤ → Bool
is_long = within 9223372036854775807

abbrev pub has_primitive : Primitive → Value → Bool
has_primitive string_type (text s) = true
has_primitive int_type (int n) = is_int n
has_primitive long_type (int n) = is_long n
has_primitive _ _ = false

abbrev pub has_primitives : List (String × Primitive) → Fields → Bool
has_primitives [] item = true
has_primitives ((name, type) ∷ rest) item =
    has_primitive type (get name item) && has_primitives rest item

abbrev pub is_among : List String → String → Bool
is_among [] name = false
is_among (other ∷ rest) name = other == name || is_among rest name

abbrev pub only_has : List String → Fields → Bool
only_has known end = true
only_has known (field name v rest) = is_among known name && only_has known rest

abbrev pub names_of : {A : Type 0} → List (String × A) → List String
names_of [] = []
names_of ((name, type) ∷ rest) = name ∷ names_of rest

abbrev pub are_records : List (String × Primitive) → Items → Bool
are_records fields nil = true
are_records fields (cons item items) =
    has_primitives fields item && only_has (names_of fields) item && are_records fields items

abbrev pub has_type : AvroType → Value → Bool
has_type (required type) v = has_primitive type v
has_type (optional type) null = true
has_type (optional type) (int n) = has_primitive type (int n)
has_type (optional type) (text s) = has_primitive type (text s)
has_type (optional type) (array items) = false
has_type (optional_records fields) null = true
has_type (optional_records fields) (array items) = are_records fields items
has_type (optional_records fields) _ = false

abbrev pub has_types : Schema → Fields → Bool
has_types [] event = true
has_types ((name, type) ∷ rest) event = has_type type (get name event) && has_types rest event

abbrev pub conforms : Schema → Fields → Bool
conforms schema event = has_types schema event && only_has (names_of schema) event
