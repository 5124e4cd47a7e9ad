-- ===== src/Struct/Trip.antt =====
-- The round trip of a plain object through the wire, and what becomes of one that skips the wire.
use regional_rate_limiter.Prelude.{true, ◌≡◌, refl, ap}
use regional_rate_limiter.Js.{
  Value, undefined, null, boolean, number, text, array, object, Items, nil, cons, Fields, end,
  field,
}
use regional_rate_limiter.Struct.{
  Wire, absent, wire, struct_value, list_value, WireFields, no_field, wire_field, WireItems,
  no_item, wire_item, value_to_js, struct_to_object, items_to_js, js_to_value, js_to_items,
  object_to_struct,
}

-- The receiver's view of a sent value: the same contents, each with its `kind`.
unfoldable mutual
  pub Delivered : Wire → Wire → Type 0
  Delivered absent w = w ≡ absent
  Delivered (wire b (struct_value fs)) w =
      (gs : WireFields) × (w ≡ wire true (struct_value gs)) × DeliveredFields fs gs
  Delivered (wire b (list_value vs)) w =
      (us : WireItems) × (w ≡ wire true (list_value us)) × DeliveredItems vs us
  Delivered (wire b c) w = w ≡ wire true c

  pub DeliveredFields : WireFields → WireFields → Type 0
  DeliveredFields no_field gs = gs ≡ no_field
  DeliveredFields (wire_field k v fs) gs =
      (w : Wire) × (hs : WireFields) × (gs ≡ wire_field k w hs)
      × Delivered v w
      × DeliveredFields fs hs

  pub DeliveredItems : WireItems → WireItems → Type 0
  DeliveredItems no_item us = us ≡ no_item
  DeliveredItems (wire_item v vs) us =
      (w : Wire) × (ts : WireItems) × (us ≡ wire_item w ts) × Delivered v w × DeliveredItems vs ts

-- A value with null for undefined, at every depth.
unfoldable mutual
  pub nulled : Value → Value
  nulled undefined = null
  nulled (array vs) = array (nulled_items vs)
  nulled (object fs) = object (nulled_fields fs)
  nulled v = v

  pub nulled_items : Items → Items
  nulled_items nil = nil
  nulled_items (cons v vs) = cons (nulled v) (nulled_items vs)

  pub nulled_fields : Fields → Fields
  nulled_fields end = end
  nulled_fields (field k v fs) = field k (nulled v) (nulled_fields fs)

mutual
  unfolding Delivered DeliveredFields DeliveredItems value_to_js struct_to_object items_to_js
      js_to_value js_to_items object_to_struct nulled nulled_items nulled_fields

  value_trip : (v : Value) (w : Wire) → Delivered (js_to_value v) w → value_to_js w ≡ nulled v
  value_trip undefined w d = rw d refl
  value_trip null w d = rw d refl
  value_trip (boolean b) w d = rw d refl
  value_trip (number n) w d = rw d refl
  value_trip (text s) w d = rw d refl
  value_trip (array vs) w (us, e, d) = rw e (ap array (items_trip vs us d))
  value_trip (object fs) w (gs, e, d) = rw e (ap object (fields_trip fs gs d))

  items_trip :
      (vs : Items) (us : WireItems)
      → DeliveredItems (js_to_items vs) us
      → items_to_js us ≡ nulled_items vs
  items_trip nil us d = rw d refl
  items_trip (cons v vs) us (w, ts, e, d, ds) =
      rw e (rw (value_trip v w d, items_trip vs ts ds) refl)

  fields_trip :
      (fs : Fields) (gs : WireFields)
      → DeliveredFields (object_to_struct fs) gs
      → struct_to_object gs ≡ nulled_fields fs
  fields_trip end gs d = rw d refl
  fields_trip (field k v fs) gs (w, hs, e, d, ds) =
      rw e (rw (value_trip v w d, fields_trip fs hs ds) refl)

-- An object that is encoded, delivered with the kinds set, and decoded again is the same at every
-- depth, but null stands for undefined.
pub struct_to_object-Delivered :
    (fs : Fields) (gs : WireFields)
    → DeliveredFields (object_to_struct fs) gs
    → struct_to_object gs ≡ nulled_fields fs
struct_to_object-Delivered fs gs d = fields_trip fs gs d

-- An object with its keys, and null under each.
unfoldable pub blanked : Fields → Fields
blanked end = end
blanked (field k v fs) = field k null (blanked fs)

js_to_value-bare : (v : Value) → value_to_js (js_to_value v) ≡ null
unfolding js_to_value value_to_js
js_to_value-bare undefined = refl
js_to_value-bare null = refl
js_to_value-bare (boolean b) = refl
js_to_value-bare (number n) = refl
js_to_value-bare (text s) = refl
js_to_value-bare (array vs) = refl
js_to_value-bare (object fs) = refl

-- An object that is encoded and decoded without a delivery in between keeps its keys, in order, and
-- loses every value: all of them become null.
pub struct_to_object-object_to_struct :
    (fs : Fields) → struct_to_object (object_to_struct fs) ≡ blanked fs
unfolding struct_to_object object_to_struct blanked
struct_to_object-object_to_struct end = refl
struct_to_object-object_to_struct (field k v fs) =
    rw (js_to_value-bare v, struct_to_object-object_to_struct fs) refl
