-- ===== src/Validation.antt =====
-- quotaui/bff/src/validation.ts, and `validateServiceBody` of quotaui/bff/src/routes/services.ts:
-- the checks on limits, keys, refund amounts and services before any call of a backend.
-- A request body is the list of its fields; a missing one reads as `undefined`.
pub mod Limit
pub mod Amount
use regional_rate_limiter.Prelude.{
  ℕ, String, Bool, true, false, not, ◌&&◌, ◌||◌, List, [], ◌∷◌, ◌++◌, ◌==◌, if◌then◌else◌,
}
use regional_rate_limiter.Prelude.Int.{pos}
use regional_rate_limiter.Js.{
  Number, nan, int, is_finite, is_integer, less, Runtime, Value, text, number, Fields, property,
  coerce, template,
}

-- `{ ok: true; value } | { ok: false; errors }`
pub data Validated {ℓ} (A : Type ℓ) : Type ℓ where
  valid : A → Validated A
  invalid : List String → Validated A

pub record LimitKey : Type 0 where
  pub service_name : String
  pub customer_id : String
  pub rate_limit_id : String

pub record ValidatedLimit : Type 0 where
  pub key : LimitKey
  pub limit_value : Number
  pub time_unit : String

abbrev pub is_non_empty_string : Value → Bool
is_non_empty_string (text s) = not (s == "")
is_non_empty_string _ = false

-- `v as string`
abbrev pub as_string : Value → String
as_string (text s) = s
as_string _ = ""

-- `v as number`
abbrev pub as_number : Value → Number
as_number (number n) = n
as_number _ = nan

-- One error, unless the test holds.
abbrev pub unless : Bool → String → List String
unless test message = if test then [] else message ∷ []

-- `TIME_UNITS.includes(u)`
abbrev pub is_time_unit : Value → Bool
is_time_unit (text s) = s == "MINUTE" || (s == "DAY" || s == "MONTH")
is_time_unit _ = false

unfoldable pub number_errors : Number → List String
number_errors n =
    if not (is_finite n)
    then "limit_value must be a number" ∷ []
    else if not (is_integer n)
    then "limit_value must be an integer" ∷ []
    else if less n (int (pos 0))
    then "limit_value must be >= 0" ∷ []
    else []

unfoldable pub limit_value_errors : Value → List String
unfolding number_errors
limit_value_errors (number n) = number_errors n
limit_value_errors _ = "limit_value must be a number" ∷ []

abbrev pub checked {ℓ} : {A : Type ℓ} → List String → A → Validated A
checked [] v = valid v
checked (e ∷ es) v = invalid (e ∷ es)

abbrev pub body_key : Fields → LimitKey
body_key body = record {
  service_name = as_string (property "service_name" body);
  customer_id = as_string (property "customer_id" body);
  rate_limit_id = as_string (property "rate_limit_id" body);
}

unfoldable pub amount_result : Number → Number → String → Validated Number
amount_result n cap cap_text =
    if not (is_finite n) || not (is_integer n)
    then invalid ("amount must be an integer" ∷ [])
    else if not (less (int (pos 0)) n)
    then invalid ("amount must be > 0" ∷ [])
    else if less cap n
    then invalid (template ("amount exceeds cap (" ∷ cap_text ∷ ")" ∷ []) ∷ [])
    else valid n

module _ (rt : Runtime) where
  unfoldable pub limit_errors : Fields → List String
  unfolding limit_value_errors
  limit_errors body =
      unless (is_non_empty_string (property "service_name" body)) "service_name is required"
      ++ (unless (is_non_empty_string (property "customer_id" body))
            "customer_id is required ('*' for the default)"
          ++ (unless (is_non_empty_string (property "rate_limit_id" body))
                "rate_limit_id is required"
              ++ (limit_value_errors (coerce rt (property "limit_value" body))
                  ++ unless (is_time_unit (property "time_unit" body))
                      "time_unit must be one of MINUTE, DAY, MONTH")))

  unfoldable pub validate_limit : Fields → Validated ValidatedLimit
  unfolding limit_errors
  validate_limit body = checked (limit_errors body) (record {
    key = body_key body;
    limit_value = as_number (coerce rt (property "limit_value" body));
    time_unit = as_string (property "time_unit" body);
  })

  abbrev pub check_amount : Value → Number → Validated Number
  check_amount (number n) cap = amount_result n cap (rt.number_text cap)
  check_amount _ cap = invalid ("amount must be an integer" ∷ [])

  -- The one error of the source is a list of one here.
  unfoldable pub validate_amount : Value → Number → Validated Number
  unfolding amount_result
  validate_amount raw cap = check_amount (coerce rt raw) cap

unfoldable pub key_errors : Fields → List String
key_errors body =
    unless (is_non_empty_string (property "service_name" body)) "service_name is required"
    ++ (unless (is_non_empty_string (property "customer_id" body)) "customer_id is required"
        ++ unless (is_non_empty_string (property "rate_limit_id" body)) "rate_limit_id is required")

unfoldable pub validate_key : Fields → Validated LimitKey
unfolding key_errors
validate_key body = checked (key_errors body) (body_key body)

-- the default of `cap`
abbrev pub default_cap : Number
default_cap = int (pos 1_000_000_000)

pub record ServiceView : Type 0 where
  pub service_name : String
  pub display_name : String
  pub owner : String

unfoldable pub service_errors : Fields → List String
service_errors body =
    unless (is_non_empty_string (property "service_name" body)) "service_name is required"
    ++ (unless (is_non_empty_string (property "display_name" body)) "display_name is required"
        ++ unless (is_non_empty_string (property "owner" body)) "owner is required")

unfoldable pub validate_service_body : Fields → Validated ServiceView
unfolding service_errors
validate_service_body body = checked (service_errors body) (record {
  service_name = as_string (property "service_name" body);
  display_name = as_string (property "display_name" body);
  owner = as_string (property "owner" body);
})
