-- ===== src/Routes.antt =====
-- quotaui/bff/src/routes/util.ts and quotaui/bff/src/deps.ts: responses, the guard, and the
-- dependencies of the routes. A response is sent by returning it, so an early `return` after
-- `res.json` is a branch.
pub mod Limits
pub mod Ops
pub mod Reviewing
pub mod Services
pub mod Audit
pub mod Allowed
pub mod Effects
pub mod Direct
pub mod Failing
pub mod Attributed
pub mod Logging
pub mod Running
use regional_rate_limiter.Prelude.{
  ℕ, ◌+◌, String, Bool, true, false, Option, none, some, List, [], ◌∷◌, ◌==◌, if◌then◌else◌,
}
use regional_rate_limiter.Js.{Number, Runtime, Value, undefined, null, truthy, to_text}
use regional_rate_limiter.Rbac
use regional_rate_limiter.Rbac.{Grant, User, Capability, AuthzResult, authorize}
use regional_rate_limiter.Validation.{LimitKey, ServiceView, Validated, valid, invalid}
use regional_rate_limiter.Rpc.{
  GrpcStatus, RpcError, Thrown, rpc_error, other_error, LimitView, UsageView, AuditView,
}
use regional_rate_limiter.Rpc.Backends.{Backends}
use regional_rate_limiter.Reviews
use regional_rate_limiter.Reviews.{PendingOp, Review, Decision, Decided, decided, refused, decide}
use regional_rate_limiter.Reviews.Policy.{ReviewPolicy, review_reason}
use regional_rate_limiter.ActionLog.{ActionLogEntry}
use regional_rate_limiter.World.{World, Exec, done, pure, ◌>>=◌, draw}
use regional_rate_limiter.Operations.{OpContext, RefundResult, Applied}

pub data Payload : Type 0 where
  empty ok_body health_body : Payload
  error_body : String → Payload
  errors_body : List String → Payload
  forbidden_body : (reason : Option String) → Payload
  rpc_error_body : String → Option GrpcStatus → Payload
  session_body : (user : User) → (editable_services : List String) → (csrf_token : String) → Payload
  limit_body : LimitView → Payload
  limits_body : List LimitView → (next_page_token : Option String) → Payload
  resolved_body : LimitView → Payload
  unconfigured_body : LimitKey → Payload
  service_body : ServiceView → Payload
  services_body : List ServiceView → (next_page_token : Option String) → Payload
  usage_body : UsageView → Payload
  refund_body : RefundResult → Payload
  pending_review_body : Review → Payload
  reviews_body : List Review → Payload
  approved_body : Review → Applied → Payload
  rejected_body : Review → Payload
  audit_body : List AuditView → (next_page_token : Option String) → Payload
  config_audit_body : List AuditView → Payload
  entries_body : List ActionLogEntry → Payload

-- The session cookie: left alone, set to an id, or cleared.
pub data CookieChange : Type 0 where
  keep_cookie clear_cookie : CookieChange
  set_cookie : String → CookieChange

pub record Response : Type 0 where
  pub status : ℕ
  pub body : Payload
  pub cookie : CookieChange

abbrev pub respond : ℕ → Payload → Response
respond status body = record { status = status; body = body; cookie = keep_cookie }

pub data AuthMode : Type 0 where
  dev oidc : AuthMode

-- `AppDeps`, less the stores, which are the world's.
pub record AppDeps (S : Type 0) : Type 0 where
  pub backends : Backends S
  pub auth_mode : AuthMode
  pub policy : Rbac.Policy
  pub review_policy : ReviewPolicy

abbrev pub op_context : User → OpContext
op_context user = record { actor = user.email; initiator = none; approver = none }

-- `if (!guard(…)) return;` before the rest of a handler.
unfoldable pub guard :
    {S : Type 0} → AppDeps S → User → Capability → Option String → Exec S Response → Exec S Response
guard deps user cap service rest =
    let d = authorize user cap service deps.policy in
    if d.ok then rest else pure (respond 403 (forbidden_body d.reason))

-- `if (!parsed.ok) { … return; }` before the rest of a handler.
unfoldable pub with_valid : {S A : Type 0} → Validated A → (A → Exec S Response) → Exec S Response
with_valid (invalid errors) rest = pure (respond 400 (errors_body errors))
with_valid (valid v) rest = rest v

-- A decision reads the clock only where it is taken.
abbrev pub readings_of : Decided → ℕ
readings_of (decided r) = 1
readings_of (refused status e) = 0

-- `String(v ?? "")`
abbrev pub text_or_empty : Runtime → Value → String
text_or_empty rt undefined = ""
text_or_empty rt null = ""
text_or_empty rt v = to_text rt v

-- `v ? String(v) : ""`
abbrev pub query_text : Runtime → Value → String
query_text rt v = if truthy v then to_text rt v else ""

module _ {S : Type 0} (rt : Runtime) where
  -- `reviews.create`, with its random id and its time
  unfoldable pub file_review : PendingOp → String → String → Exec S Review
  file_review op initiator reason w =
      let (r, store) =
        Reviews.create (rt.random_hex w.draws) op initiator reason (rt.now_iso w.readings)
          w.reviews in
      (done r, record w { reviews = store; draws = w.draws + 1; readings = w.readings + 1 })

  -- `reviews.decide`
  unfoldable pub decide_review : String → String → Decision → Exec S Decided
  decide_review id approver decision w =
      let (d, store) = decide id approver decision (rt.now_iso w.readings) w.reviews in
      (done d, record w { reviews = store; readings = w.readings + readings_of d })

  -- `if (reason) { … return; }` of the mutating routes: a change that needs a review is filed, and
  -- the rest of the handler runs for the others. A reason is never the empty text.
  abbrev pub reviewed : PendingOp → User → Option String → Exec S Response → Exec S Response
  reviewed op user none rest = rest
  reviewed op user (some reason) rest = do
    review ← file_review op user.email reason
    pure (respond 202 (pending_review_body review))

  unfoldable pub with_review : AppDeps S → User → PendingOp → Exec S Response → Exec S Response
  with_review deps user op rest = reviewed op user (review_reason rt op deps.review_policy) rest

-- `token || null`
abbrev pub token_or_null : String → Option String
token_or_null t = if t == "" then none else some t
