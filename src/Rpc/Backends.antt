-- ===== src/Rpc/Backends.antt =====
-- The two backends behind quotaui/bff/src/grpc.ts, as an interface: one field for each RPC that the
-- server calls. A backend is another program, so its state and what its RPCs do are arbitrary here;
-- dev/mocks.ts is one implementation.
use regional_rate_limiter.Prelude.{String, Bool, Option, List}
use regional_rate_limiter.Js.{Number}
use regional_rate_limiter.Validation.{LimitKey, ServiceView}
use regional_rate_limiter.Rpc.{ServiceError, Numeric, Timestamp, RawLimit, RawUsage, RawAudit}

pub data Reply {ℓ} (A : Type ℓ) : Type ℓ where
  failure : ServiceError → Reply A
  reply : A → Reply A

-- A method of a client object, looked up by name: it may be missing. It gets the request and the
-- actor of the metadata, if one is set, and may change the backend's state.
abbrev pub Method : Type 0 → Type 0 → Type 0 → Type 0
Method S Req Res = Option (Req → Option String → S → Reply Res × S)

pub record CreateLimitRequest : Type 0 where
  pub key : LimitKey
  pub limit_value : Number
  pub time_unit : String

pub record UpdateLimitRequest : Type 0 where
  pub key : LimitKey
  pub limit_value : Number
  pub time_unit : String
  pub create_if_absent : Bool

pub record DeleteLimitRequest : Type 0 where
  pub key : LimitKey
  pub allow_missing : Bool

pub record GetLimitRequest : Type 0 where
  pub key : LimitKey
  pub resolve : Bool

pub record GetLimitResponse : Type 0 where
  pub limit : RawLimit
  pub is_default : Bool

pub record ListLimitsRequest : Type 0 where
  pub service_name : String
  pub customer_id : String
  pub rate_limit_id : String
  pub page_size : Number
  pub page_token : String

-- A page of a listing.
pub record Page (A : Type 0) : Type 0 where
  pub items : List A
  pub next_page_token : String

pub record ListServicesRequest : Type 0 where
  pub page_size : Number
  pub page_token : String

pub record RefundRequest : Type 0 where
  pub key : LimitKey
  pub amount : Number
  pub request_id : String

pub record RawRefund : Type 0 where
  pub remaining : Numeric
  pub limit : Numeric
  pub reset_at : Option Timestamp

pub record AuditRequest : Type 0 where
  pub service_name : String
  pub key : Option LimitKey
  pub config_id : Number
  pub since : Option Timestamp
  pub page_size : Number
  pub page_token : String

pub record Backends (S : Type 0) : Type 0 where
  pub create_limit : Method S CreateLimitRequest RawLimit
  pub update_limit : Method S UpdateLimitRequest RawLimit
  pub delete_limit : Method S DeleteLimitRequest (Unit {0})
  pub get_limit : Method S GetLimitRequest GetLimitResponse
  pub list_limits : Method S ListLimitsRequest (Page RawLimit)
  pub register_service : Method S ServiceView ServiceView
  pub get_service : Method S String ServiceView
  pub list_services : Method S ListServicesRequest (Page ServiceView)
  pub list_audit_entries : Method S AuditRequest (Page RawAudit)
  pub refund : Method S RefundRequest RawRefund
  pub get_usage : Method S LimitKey RawUsage

-- The requests, as they are seen on the wire.
pub data Message : Type 0 where
  create_limit : CreateLimitRequest → Message
  update_limit : UpdateLimitRequest → Message
  delete_limit : DeleteLimitRequest → Message
  get_limit : GetLimitRequest → Message
  list_limits : ListLimitsRequest → Message
  register_service : ServiceView → Message
  get_service : String → Message
  list_services : ListServicesRequest → Message
  list_audit_entries : AuditRequest → Message
  refund : RefundRequest → Message
  get_usage : LimitKey → Message

pub record Sent : Type 0 where
  pub message : Message
  pub actor : Option String
