-- ===== src/Routes/Ops.antt =====
-- quotaui/bff/src/routes/ops.ts and quotaui/bff/src/routes/usage.ts: manual refunds and resets, and
-- the live usage of a key.
use regional_rate_limiter.Prelude.{none, some}
use regional_rate_limiter.Js.{Runtime, Fields, property}
use regional_rate_limiter.Rbac.{User, usage_read, op_refund, op_reset}
use regional_rate_limiter.Validation.{validate_key, validate_amount, default_cap}
use regional_rate_limiter.Rpc.{to_usage_view}
use regional_rate_limiter.Rpc.Backends.{Message}
use regional_rate_limiter.Reviews.{PendingOp}
use regional_rate_limiter.World.{Exec, pure, convert, now, ◌>>=◌, call}
use regional_rate_limiter.Operations.{refund_amount, reset_window}
use regional_rate_limiter.Routes.{
  Response, respond, refund_body, usage_body, AppDeps, op_context, guard, with_valid, with_review,
}

module _ {S : Type 0} (rt : Runtime) (deps : AppDeps S) (user : User) where
  -- POST /api/ops/refund
  unfoldable pub refund_route : Fields → Exec S Response
  refund_route body = with_valid (validate_key body) λ key.
      with_valid (validate_amount rt (property "amount" body) default_cap) λ amount.
        guard deps user op_refund (some key.service_name) (
          with_review rt deps user (PendingOp.refund key amount) (do
            result ← refund_amount rt deps.backends (op_context user) key amount
            pure (respond 200 (refund_body result))))

  -- POST /api/ops/reset
  unfoldable pub reset_route : Fields → Exec S Response
  reset_route body = with_valid (validate_key body) λ key.
      guard deps user op_reset (some key.service_name) (
        with_review rt deps user (PendingOp.reset key) (do
          usage ← reset_window rt deps.backends (op_context user) key
          pure (respond 200 (usage_body usage))))

  -- GET /api/usage
  unfoldable pub usage_route : Fields → Exec S Response
  usage_route query = with_valid (validate_key query) λ key.
      guard deps user usage_read (some key.service_name) (do
        fetched_at ← now rt
        resp ← call deps.backends.get_usage "GetUsage" Message.get_usage key none
        view ← convert (to_usage_view rt key resp fetched_at)
        pure (respond 200 (usage_body view)))
