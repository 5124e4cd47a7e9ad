-- ===== src/Struct.antt =====
-- quotaui/bff/src/struct.ts: plain values to `google.protobuf.Struct` and back.
--
-- A value of the wire is an object with one content, and with or without the field `kind` that names
-- it: `jsToValue` leaves it out, and @grpc/proto-loader sets it when it decodes a message. The keys
-- of an object are distinct, and an object keeps their order.
pub mod Trip
use regional_rate_limiter.Prelude.{String, Bool, true, false}
use regional_rate_limiter.Js.{
  Number, Value, undefined, null, boolean, number, text, array, object, Items, nil, cons, Fields,
  end, field,
}

mutual
  pub data Wire : Type 0 where
    absent : Wire
    wire : (has_kind : Bool) → Content → Wire

  pub data Content : Type 0 where
    null_value : Content
    number_value : Number → Content
    string_value : String → Content
    bool_value : Bool → Content
    struct_value : WireFields → Content
    list_value : WireItems → Content

  pub data WireFields : Type 0 where
    no_field : WireFields
    wire_field : String → Wire → WireFields → WireFields

  pub data WireItems : Type 0 where
    no_item : WireItems
    wire_item : Wire → WireItems → WireItems

unfoldable mutual
  -- `valueToJs`: without a known `kind`, the default is null.
  pub value_to_js : Wire → Value
  value_to_js absent = null
  value_to_js (wire false c) = null
  value_to_js (wire true null_value) = null
  value_to_js (wire true (number_value n)) = number n
  value_to_js (wire true (string_value s)) = text s
  value_to_js (wire true (bool_value b)) = boolean b
  value_to_js (wire true (struct_value fs)) = object (struct_to_object fs)
  value_to_js (wire true (list_value vs)) = array (items_to_js vs)

  -- `structToObject`, of a struct that is there
  pub struct_to_object : WireFields → Fields
  struct_to_object no_field = end
  struct_to_object (wire_field k v fs) = field k (value_to_js v) (struct_to_object fs)

  -- `values.map(valueToJs)`
  pub items_to_js : WireItems → Items
  items_to_js no_item = nil
  items_to_js (wire_item v vs) = cons (value_to_js v) (items_to_js vs)

unfoldable mutual
  -- `jsToValue`
  pub js_to_value : Value → Wire
  js_to_value undefined = wire false null_value
  js_to_value null = wire false null_value
  js_to_value (boolean b) = wire false (bool_value b)
  js_to_value (number n) = wire false (number_value n)
  js_to_value (text s) = wire false (string_value s)
  js_to_value (array vs) = wire false (list_value (js_to_items vs))
  js_to_value (object fs) = wire false (struct_value (object_to_struct fs))

  -- `x.map(jsToValue)`
  pub js_to_items : Items → WireItems
  js_to_items nil = no_item
  js_to_items (cons v vs) = wire_item (js_to_value v) (js_to_items vs)

  -- `objectToStruct`
  pub object_to_struct : Fields → WireFields
  object_to_struct end = no_field
  object_to_struct (field k v fs) = wire_field k (js_to_value v) (object_to_struct fs)
