-- ===== src/Routes/Reviewing.antt =====
-- quotaui/bff/src/routes/reviews.ts: the queue of reviews and the decisions on them.
use regional_rate_limiter.Prelude.{String, none, some}
use regional_rate_limiter.Js.{Runtime}
use regional_rate_limiter.Rbac.{User, review_approve}
use regional_rate_limiter.Reviews.{Decision, Decided, decided, refused, list_pending}
use regional_rate_limiter.World.{Exec, done, pure, ◌>>=◌}
use regional_rate_limiter.Operations.{OpContext, execute_pending_op}
use regional_rate_limiter.Routes.{
  Response, respond, error_body, reviews_body, approved_body, rejected_body, AppDeps, guard,
  decide_review,
}

module _ {S : Type 0} (rt : Runtime) (deps : AppDeps S) (user : User) where
  unfoldable pub read_pending : Exec S Response
  read_pending w = (done (respond 200 (reviews_body (list_pending w.reviews))), w)

  -- GET /api/reviews
  unfoldable pub list_reviews_route : Exec S Response
  unfolding read_pending
  list_reviews_route = guard deps user review_approve none read_pending

  -- The change is applied by the approver, on behalf of the initiator.
  abbrev pub approver_context : String → OpContext
  approver_context initiator = record {
    actor = user.email;
    initiator = some initiator;
    approver = some user.email;
  }

  unfoldable pub apply_decision : Decided → Exec S Response
  apply_decision (refused status e) = pure (respond status (error_body e))
  apply_decision (decided r) = do
    result ← execute_pending_op rt deps.backends (approver_context r.initiator) r.op
    pure (respond 200 (approved_body r result))

  -- POST /api/reviews/:id/approve
  unfoldable pub approve_route : String → Exec S Response
  unfolding apply_decision
  approve_route id =
      guard deps user review_approve none
        (do decision ← decide_review rt id user.email Decision.approve; apply_decision decision)

  unfoldable pub report_rejection : Decided → Exec S Response
  report_rejection (refused status e) = pure (respond status (error_body e))
  report_rejection (decided r) = pure (respond 200 (rejected_body r))

  -- POST /api/reviews/:id/reject
  unfoldable pub reject_route : String → Exec S Response
  unfolding report_rejection
  reject_route id =
      guard deps user review_approve none
        (do decision ← decide_review rt id user.email Decision.reject; report_rejection decision)
