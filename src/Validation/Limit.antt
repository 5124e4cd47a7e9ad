-- ===== src/Validation/Limit.antt =====
-- What `validateLimit`, `validateKey` and `validateServiceBody` accept.
use regional_rate_limiter.Prelude.{
  ℕ, String, Bool, true, false, List, [], ◌∷◌, ◌++◌, ◌≡◌, ◌≢◌, refl, ◌↔◌, ◌⊎◌, inl, inr, arith,
  eq_iff, ap, Bool-cases,
}
use regional_rate_limiter.Prelude.Int.{pos, negsuc}
use regional_rate_limiter.Js.{
  Number, int, Runtime, Value, text, number, Fields, property, coerce, is_blank_text, is_finite,
  is_integer, less,
}
use regional_rate_limiter.Validation.{
  valid, LimitKey, ValidatedLimit, checked, unless, is_non_empty_string, is_time_unit, as_string,
  as_number, body_key, limit_value_errors, limit_errors, validate_limit, validate_key, key_errors,
}

-- The value is the text `s`, which is not empty.
abbrev pub IsText : Value → String → Type 0
IsText v s = (v ≡ text s) × (s ≢ "")

-- The value stands for the number `n`: as it is, or as a text with more than white space.
pub data Denotes (rt : Runtime) (v : Value) (n : Number) : Type 0 where
  as_is : v ≡ number n → Denotes rt v n
  converted :
      (s : String) → v ≡ text s → is_blank_text s ≡ false → rt.to_number s ≡ n → Denotes rt v n

abbrev pub IsTimeUnit : String → Type 0
IsTimeUnit s = (s ≡ "MINUTE") ⊎ (s ≡ "DAY") ⊎ (s ≡ "MONTH")

pub record IsKey (body : Fields) (k : LimitKey) : Type 0 where
  pub service : IsText (property "service_name" body) k.service_name
  pub customer : IsText (property "customer_id" body) k.customer_id
  pub limit_id : IsText (property "rate_limit_id" body) k.rate_limit_id

pub record IsLimit (rt : Runtime) (body : Fields) (v : ValidatedLimit) : Type 0 where
  pub keyed : IsKey body v.key
  pub value : Denotes rt (property "limit_value" body) v.limit_value
  pub count : ℕ
  pub non_negative : v.limit_value ≡ int (pos count)
  pub unit : property "time_unit" body ≡ text v.time_unit
  pub known_unit : IsTimeUnit v.time_unit

unless_nil :
    (b : Bool) (m : String) (es : List String) → unless b m ++ es ≡ [] → (b ≡ true) × (es ≡ [])
unless_nil b m es h = ground arith

IsText-of_test : (v : Value) → is_non_empty_string v ≡ true → IsText v (as_string v)
IsText-of_test (text s) h = ground (arith, eq_iff s "")
IsText-of_test _ h = cc

test_of_IsText : (v : Value) (s : String) → IsText v s → is_non_empty_string v ≡ true
test_of_IsText v s (e, ne) = rw e (ground (arith, eq_iff s ""))

pub Denotes-of_coerce :
    (rt : Runtime) (v : Value) (n : Number) → coerce rt v ≡ number n → Denotes rt v n
unfolding coerce
Denotes-of_coerce rt (text s) n h = elim (Bool-cases (is_blank_text s)) [
  | inl blank ↦ absurd (ground (arith, rw blank at h))
  | inr full ↦ converted s refl full (ground (arith, rw full at h))
]
Denotes-of_coerce rt _ n h = as_is h

pub coerce_of_Denotes :
    (rt : Runtime) (v : Value) (n : Number) → Denotes rt v n → coerce rt v ≡ number n
unfolding coerce
coerce_of_Denotes rt v n (as_is e) = rw e refl
coerce_of_Denotes rt v n (converted s e full same) = rw e (rw full (ap number same))

limit_value_sound : (w : Value) → limit_value_errors w ≡ [] → (k : ℕ) × (w ≡ number (int (pos k)))
unfolding limit_value_errors is_finite is_integer less
limit_value_sound (number (int (pos k))) h = (k, refl)
limit_value_sound (number (int (negsuc k))) h = absurd (ground arith)
limit_value_sound (number _) h = absurd (ground arith)
limit_value_sound _ h = absurd (ground arith)

limit_value_complete : (k : ℕ) → limit_value_errors (number (int (pos k))) ≡ []
unfolding limit_value_errors is_finite is_integer less
limit_value_complete k = ground arith

IsTimeUnit-sound :
    (v : Value) → is_time_unit v ≡ true → (v ≡ text (as_string v)) × IsTimeUnit (as_string v)
IsTimeUnit-sound (text s) h =
    (refl, ground (arith, eq_iff s "MINUTE", eq_iff s "DAY", eq_iff s "MONTH"))
IsTimeUnit-sound _ h = cc

time_unit_complete : (s : String) → IsTimeUnit s → is_time_unit (text s) ≡ true
time_unit_complete s h = ground (arith, eq_iff s "MINUTE", eq_iff s "DAY", eq_iff s "MONTH")

as_string_of_IsText : (v : Value) (s : String) → IsText v s → as_string v ≡ s
as_string_of_IsText v s h = rw h.0 refl

checked_nil {ℓ} :
    {A : Type ℓ} (es : List String) (a b : A) → checked es a ≡ valid b → (es ≡ []) × (a ≡ b)
checked_nil [] a b h = ground arith
checked_nil (e ∷ es) a b h = cc

IsKey-sound : (body : Fields) → key_errors body ≡ [] → IsKey body (body_key body)
unfolding key_errors
IsKey-sound body h =
    let (s, h') = unless_nil _ _ _ h in
    let (c, h'') = unless_nil _ _ _ h' in
    record {
      service = IsText-of_test _ s;
      customer = IsText-of_test _ c;
      limit_id = IsText-of_test _ (ground arith);
    }

key_fields : (body : Fields) (k : LimitKey) → IsKey body k → body_key body ≡ k
key_fields body k h = ground (
  arith,
  as_string_of_IsText _ _ h.service,
  as_string_of_IsText _ _ h.customer,
  as_string_of_IsText _ _ h.limit_id,
)

key_tests : (body : Fields) (k : LimitKey) → IsKey body k → key_errors body ≡ []
unfolding key_errors
key_tests body k h =
    rw (test_of_IsText _ _ h.service, test_of_IsText _ _ h.customer, test_of_IsText _ _ h.limit_id)
      refl

-- A body is accepted as a key exactly when its three fields are the key's texts, none of them empty.
pub validate_key_iff : (body : Fields) (k : LimitKey) → (validate_key body ≡ valid k) ↔ IsKey body k
unfolding validate_key
validate_key_iff body k = (
  λ h.
      let (none_wrong, same) = checked_nil (key_errors body) (body_key body) k h in
      rw same at (IsKey-sound body none_wrong),
  λ h. rw (key_tests body k h) (ap valid (key_fields body k h)),
)

limit_tests :
    (rt : Runtime) (body : Fields) (v : ValidatedLimit)
    → IsLimit rt body v
    → limit_errors rt body ≡ []
unfolding limit_errors
limit_tests rt body v h =
    rw
      (
        test_of_IsText _ _ h.keyed.service,
        test_of_IsText _ _ h.keyed.customer,
        test_of_IsText _ _ h.keyed.limit_id,
        coerce_of_Denotes rt _ _ h.value,
        h.non_negative,
        limit_value_complete h.count,
        h.unit,
        time_unit_complete _ h.known_unit,
      )
      refl

both_nil : (xs ys : List String) → xs ++ ys ≡ [] → (xs ≡ []) × (ys ≡ [])
both_nil [] ys h = (refl, h)
both_nil (x ∷ xs) ys h = cc

test_of_unless : (b : Bool) (m : String) → unless b m ≡ [] → b ≡ true
test_of_unless b m h = ground arith

IsLimit-sound :
    (rt : Runtime) (body : Fields)
    → limit_errors rt body ≡ []
    → IsLimit rt body (record {
      key = body_key body;
      limit_value = as_number (coerce rt (property "limit_value" body));
      time_unit = as_string (property "time_unit" body);
    })
unfolding limit_errors
IsLimit-sound rt body h =
    let (s, h₁) = unless_nil _ _ _ h in
    let (c, h₂) = unless_nil _ _ _ h₁ in
    let (r, h₃) = unless_nil _ _ _ h₂ in
    let (n, h₄) = both_nil (limit_value_errors (coerce rt (property "limit_value" body))) _ h₃ in
    let (k, is_k) = limit_value_sound _ n in
    let (u, known) = IsTimeUnit-sound _ (test_of_unless _ _ h₄) in
    record {
      keyed = record {
        service = IsText-of_test _ s;
        customer = IsText-of_test _ c;
        limit_id = IsText-of_test _ r;
      };
      value = rw (ap as_number is_k) (Denotes-of_coerce rt _ _ is_k);
      count = k;
      non_negative = rw is_k refl;
      unit = u;
      known_unit = known;
    }

limit_fields :
    (rt : Runtime) (body : Fields) (v : ValidatedLimit)
    → IsLimit rt body v
    → ◌≡◌ {A = ValidatedLimit}
        (record {
          key = body_key body;
          limit_value = as_number (coerce rt (property "limit_value" body));
          time_unit = as_string (property "time_unit" body);
        })
        v
limit_fields rt body v h = ground (
  arith,
  key_fields body v.key h.keyed,
  ap as_number (coerce_of_Denotes rt _ _ h.value),
  ap as_string h.unit,
)

-- Whatever the engine's conversion of texts to numbers, a body is accepted exactly when its key
-- fields are texts that are not empty, its value is, or converts to, an integer that is not
-- negative, and its unit is MINUTE, DAY or MONTH; the result holds those very values.
pub validate_limit_iff :
    (rt : Runtime) (body : Fields) (v : ValidatedLimit)
    → (validate_limit rt body ≡ valid v) ↔ IsLimit rt body v
unfolding validate_limit
validate_limit_iff rt body v = (
  λ h.
      let (none_wrong, same) = checked_nil (limit_errors rt body) _ v h in
      rw same at (IsLimit-sound rt body none_wrong),
  λ h. rw (limit_tests rt body v h) (ap valid (limit_fields rt body v h)),
)
