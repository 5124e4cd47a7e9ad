-- ===== src/Rpc.antt =====
-- quotaui/bff/src/rpc.ts and quotaui/bff/src/types.ts: the translation of backend errors to HTTP, and
-- of backend replies to the shapes that the browser gets. The messages are those of the two backends'
-- protos, as the client library decodes them: 64-bit integers come as texts or numbers.
pub mod Backends
use regional_rate_limiter.Prelude.{
  ℕ, String, Bool, true, false, Option, none, some, List, [], ◌∷◌, ◌==◌, or_else, if◌then◌else◌,
}
use regional_rate_limiter.Prelude.Int.{pos}
use regional_rate_limiter.Js.{Number, int, Runtime, Fields}
use regional_rate_limiter.Struct.{WireFields, struct_to_object}
use regional_rate_limiter.Validation.{LimitKey, ServiceView}

pub data GrpcStatus : Type 0 where
  ok cancelled unknown invalid_argument deadline_exceeded not_found already_exists : GrpcStatus
  permission_denied resource_exhausted failed_precondition aborted out_of_range : GrpcStatus
  unimplemented internal unavailable data_loss unauthenticated : GrpcStatus

-- `class RpcError`
pub record RpcError : Type 0 where
  pub http_status : ℕ
  pub message : String
  pub code : Option GrpcStatus

-- What a handler may throw: an `RpcError`, or another `Error` with its message.
pub data Thrown : Type 0 where
  rpc_error : RpcError → Thrown
  other_error : String → Thrown

unfoldable pub status_to_http : GrpcStatus → ℕ
status_to_http invalid_argument = 400
status_to_http failed_precondition = 400
status_to_http out_of_range = 400
status_to_http not_found = 404
status_to_http already_exists = 409
status_to_http permission_denied = 403
status_to_http unauthenticated = 401
status_to_http unimplemented = 501
status_to_http deadline_exceeded = 503
status_to_http unavailable = 503
status_to_http _ = 502

unfoldable pub grpc_to_http : Option GrpcStatus → ℕ
unfolding status_to_http
grpc_to_http none = 502
grpc_to_http (some code) = status_to_http code

-- What the client library hands to the callback of a failed call.
pub record ServiceError : Type 0 where
  pub code : Option GrpcStatus
  pub details : String
  pub message : String

-- `new RpcError(grpcToHttp(err.code), err.details || err.message, err.code)`
unfoldable pub to_rpc_error : ServiceError → RpcError
unfolding grpc_to_http
to_rpc_error err = record {
  http_status = grpc_to_http err.code;
  message = if err.details == "" then err.message else err.details;
  code = err.code;
}

-- `string | number`
pub data Numeric : Type 0 where
  digits : String → Numeric
  value : Number → Numeric

pub record Timestamp : Type 0 where
  pub seconds : Option Numeric
  pub nanos : Option Number

pub record RawLimit : Type 0 where
  pub key : LimitKey
  pub limit_value : Option Numeric
  pub time_unit : String
  pub config_id : Option Numeric

pub record LimitView : Type 0 where
  pub config_id : Option Number
  pub key : LimitKey
  pub limit_value : Number
  pub time_unit : String
  pub is_default : Bool

pub record RawUsage : Type 0 where
  pub consumed : Numeric
  pub remaining : Numeric
  pub limit : Numeric
  pub reset_at : Option Timestamp
  pub configured : Bool

pub record UsageView : Type 0 where
  pub key : LimitKey
  pub configured : Bool
  pub limit : Option Number
  pub consumed : Number
  pub remaining : Number
  pub reset_at : Option String
  pub fetched_at : String

pub record RawAudit : Type 0 where
  pub audit_id : Option Numeric
  pub config_id : Option Numeric
  pub operation : String
  pub old_row : Option WireFields
  pub new_row : Option WireFields
  pub changed_by : String
  pub changed_at : Option Timestamp

pub record AuditView : Type 0 where
  pub audit_id : Number
  pub config_id : Number
  pub operation : String
  pub old_row : Option Fields
  pub new_row : Option Fields
  pub changed_by : String
  pub changed_at : Option String

-- A conversion that may throw.
pub data Converted {ℓ} (A : Type ℓ) : Type ℓ where
  converted : A → Converted A
  failed : String → Converted A

module _ (rt : Runtime) where
  -- `Number(x)`
  unfoldable pub to_number : Numeric → Number
  to_number (digits s) = rt.to_number s
  to_number (value n) = n

  unfoldable pub num : Option Numeric → Number
  unfolding to_number
  num none = int (pos 0)
  num (some x) = to_number x

  -- `Number(t.seconds) * 1000 + Math.floor((t.nanos ?? 0) / 1e6)`
  abbrev pub timestamp_ms : Numeric → Option Number → Number
  timestamp_ms seconds nanos =
      rt.add (rt.multiply (to_number seconds) (int (pos 1000)))
        (rt.floor (rt.divide (or_else nanos (int (pos 0))) (int (pos 1_000_000))))

  abbrev iso_of : Option String → Converted (Option String)
  iso_of none = failed "Invalid time value"
  iso_of (some s) = converted (some s)

  abbrev pub seconds_to_iso : Option Numeric → Option Number → Converted (Option String)
  seconds_to_iso none nanos = converted none
  seconds_to_iso (some s) nanos = iso_of (rt.iso_string (timestamp_ms s nanos))

  unfoldable pub timestamp_to_iso : Option Timestamp → Converted (Option String)
  unfolding to_number
  timestamp_to_iso none = converted none
  timestamp_to_iso (some t) = seconds_to_iso t.seconds t.nanos

  abbrev id_of : Option Numeric → Option Number
  id_of none = none
  id_of (some x) = some (to_number x)

  unfoldable pub to_limit_view : RawLimit → Option Bool → LimitView
  unfolding num
  to_limit_view l is_default_override = record {
    config_id = id_of l.config_id;
    key = l.key;
    limit_value = num l.limit_value;
    time_unit = l.time_unit;
    is_default = or_else is_default_override (l.key.customer_id == "*");
  }

  abbrev usage_at : LimitKey → RawUsage → String → Converted (Option String) → Converted UsageView
  usage_at key u fetched_at (failed e) = failed e
  usage_at key u fetched_at (converted reset_at) = converted (record {
    key = key;
    configured = u.configured;
    limit = if u.configured then some (to_number u.limit) else none;
    consumed = to_number u.consumed;
    remaining = to_number u.remaining;
    reset_at = reset_at;
    fetched_at = fetched_at;
  })

  unfoldable pub to_usage_view : LimitKey → RawUsage → String → Converted UsageView
  unfolding to_number timestamp_to_iso
  to_usage_view key u fetched_at = usage_at key u fetched_at (timestamp_to_iso u.reset_at)

  abbrev row_of : Option WireFields → Option Fields
  row_of none = none
  row_of (some fs) = some (struct_to_object fs)

  abbrev pub audit_at : RawAudit → Converted (Option String) → Converted AuditView
  audit_at e (failed m) = failed m
  audit_at e (converted changed_at) = converted (record {
    audit_id = num e.audit_id;
    config_id = num e.config_id;
    operation = e.operation;
    old_row = row_of e.old_row;
    new_row = row_of e.new_row;
    changed_by = e.changed_by;
    changed_at = changed_at;
  })

  unfoldable pub to_audit_view : RawAudit → Converted AuditView
  to_audit_view e = audit_at e (timestamp_to_iso e.changed_at)

  abbrev pub both : Converted AuditView → Converted (List AuditView) → Converted (List AuditView)
  both (failed m) vs = failed m
  both (converted v) (failed m) = failed m
  both (converted v) (converted vs) = converted (v ∷ vs)

  -- `entries.map(toAuditView)`
  unfoldable pub to_audit_views : List RawAudit → Converted (List AuditView)
  to_audit_views [] = converted []
  to_audit_views (e ∷ es) = both (to_audit_view e) (to_audit_views es)
