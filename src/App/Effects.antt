-- ===== src/App/Effects.antt =====
-- What a request makes the server send to the backends.
use regional_rate_limiter.Prelude.{false, ◌≡◌, refl, sym, subst, arith, List, ◌++◌, All}
use regional_rate_limiter.Js.{Runtime}
use regional_rate_limiter.Rbac.{User, Policy, review_approve}
use regional_rate_limiter.Session.{Session}
use regional_rate_limiter.Rpc.Backends.{Sent}
use regional_rate_limiter.World.{World, pure, throw}
use regional_rate_limiter.World.Grows.{quiet, Grows-pure}
use regional_rate_limiter.World.Emits.{Emits}
use regional_rate_limiter.Routes.{AppDeps}
use regional_rate_limiter.Routes.Allowed.{IsAllowed, IsReviewed, guard-Emits}
use regional_rate_limiter.Routes.Effects.{
  list_audit_route-Emits, config_audit_route-Emits, create_limit_route-Emits,
  update_limit_route-Emits, delete_limit_route-Emits, refund_route-Emits, list_limits_route-Emits,
  list_services_route-Emits, get_service_route-Emits, create_service_route-Emits,
  edit_service_route-Emits, resolve_limit_route-Emits, usage_route-Emits, reset_route-Emits,
  list_reviews_route-Emits, approve_route-Emits, reject_route-Emits,
}
use regional_rate_limiter.App.{
  ApiRoute, list_audit, config_audit, session, list_limits, resolve_limit, create_limit,
  update_limit, delete_limit, list_services, create_service, usage, refund, reset, list_reviews,
  action_log, get_service, edit_service, approve_review, reject_review, no_route, Route, api,
  Request, serve, dev_login, log_out, handle,
}
use regional_rate_limiter.App.Gate.{approves, is_reset, Adds, handle-Adds}

-- What a request of the user may send.
abbrev pub MaySend : {S : Type 0} → Policy → Route → World S → User → Sent → Type 0
MaySend policy (api (approve_review id)) w user m = IsReviewed user policy w.reviews id m
MaySend policy r w user m = IsAllowed user policy (is_reset r) m

module _ {S : Type 0} (rt : Runtime) (deps : AppDeps S) where
  serve-Emits :
      (user : User) (s : Session) (req : Request) (route : ApiRoute)
      → approves (api route) ≡ false
      → Emits (IsAllowed user deps.policy (is_reset (api route))) (serve rt deps user s req route)
  unfolding serve
  serve-Emits user s req session h = Grows-pure _
  serve-Emits user s req list_limits h = list_limits_route-Emits rt deps user false req.query
  serve-Emits user s req resolve_limit h = resolve_limit_route-Emits rt deps user false req.query
  serve-Emits user s req create_limit h = create_limit_route-Emits rt deps user false req.body
  serve-Emits user s req update_limit h = update_limit_route-Emits rt deps user false req.body
  serve-Emits user s req delete_limit h = delete_limit_route-Emits rt deps user false req.body
  serve-Emits user s req list_services h = list_services_route-Emits rt deps user false req.query
  serve-Emits user s req (get_service name) h = get_service_route-Emits rt deps user false name
  serve-Emits user s req create_service h = create_service_route-Emits rt deps user false req.body
  serve-Emits user s req (edit_service name) h =
      edit_service_route-Emits rt deps user false name req.body
  serve-Emits user s req usage h = usage_route-Emits rt deps user req.query
  serve-Emits user s req list_audit h = list_audit_route-Emits rt deps user false req.query
  serve-Emits user s req (config_audit id) h =
      config_audit_route-Emits rt deps user false id req.query
  serve-Emits user s req refund h = refund_route-Emits rt deps user req.body
  serve-Emits user s req reset h = reset_route-Emits rt deps user req.body
  serve-Emits user s req list_reviews h = list_reviews_route-Emits rt deps user false
  serve-Emits user s req (approve_review id) h = absurd (ground arith)
  serve-Emits user s req (reject_review id) h = reject_route-Emits rt deps user false id
  serve-Emits user s req action_log h =
      guard-Emits deps user review_approve _ _ λ may. quiet _ (λ w. refl)
  serve-Emits user s req (no_route m) h = Grows-pure _

  serves_sent :
      (user : User) (s : Session) (req : Request) (route : ApiRoute) (w : World S)
      → (new : List Sent) × ((serve rt deps user s req route w).1.sent ≡ w.sent ++ new)
        × All (MaySend deps.policy (api route) w user) new
  unfolding serve
  serves_sent user s req (approve_review id) w = approve_route-Emits rt deps user id w
  serves_sent user s req session w = (serve-Emits user s req session refl).at w
  serves_sent user s req list_limits w = (serve-Emits user s req list_limits refl).at w
  serves_sent user s req resolve_limit w = (serve-Emits user s req resolve_limit refl).at w
  serves_sent user s req create_limit w = (serve-Emits user s req create_limit refl).at w
  serves_sent user s req update_limit w = (serve-Emits user s req update_limit refl).at w
  serves_sent user s req delete_limit w = (serve-Emits user s req delete_limit refl).at w
  serves_sent user s req list_services w = (serve-Emits user s req list_services refl).at w
  serves_sent user s req (get_service name) w =
      (serve-Emits user s req (get_service name) refl).at w
  serves_sent user s req create_service w = (serve-Emits user s req create_service refl).at w
  serves_sent user s req (edit_service name) w =
      (serve-Emits user s req (edit_service name) refl).at w
  serves_sent user s req usage w = (serve-Emits user s req usage refl).at w
  serves_sent user s req list_audit w = (serve-Emits user s req list_audit refl).at w
  serves_sent user s req (config_audit id) w = (serve-Emits user s req (config_audit id) refl).at w
  serves_sent user s req refund w = (serve-Emits user s req refund refl).at w
  serves_sent user s req reset w = (serve-Emits user s req reset refl).at w
  serves_sent user s req list_reviews w = (serve-Emits user s req list_reviews refl).at w
  serves_sent user s req (reject_review id) w =
      (serve-Emits user s req (reject_review id) refl).at w
  serves_sent user s req action_log w = (serve-Emits user s req action_log refl).at w
  serves_sent user s req (no_route m) w = (serve-Emits user s req (no_route m) refl).at w

  pub login_quiet : (req : Request) (w : World S) → (dev_login rt deps req.body w).1.sent ≡ w.sent
  unfolding dev_login pure throw
  login_quiet req w = ground arith

  pub logout_quiet : (req : Request) (w : World S) → (log_out rt deps req.cookie w).1.sent ≡ w.sent
  unfolding log_out
  logout_quiet req w = refl

  -- Whatever the backends do and whatever the request, the messages that it causes are added to
  -- those sent before, and there are none unless the request comes from a user with a live session
  -- and carries, if its method is POST, PUT, PATCH or DELETE, that session's own token. If the
  -- request approves a review, there are none unless that review was pending and somebody else's
  -- and the user may approve reviews, and each of them applies the reviewed change: it has that
  -- change's key, value, unit or amount, and bears the user's own e-mail as its actor, unless it
  -- reads the usage for a reset. Any other request sends only what is within that user's rights: a
  -- write bears the user's own e-mail as its actor and goes to a service on which `authorize`
  -- permits it, a read of limits, usage or audit needs the right to it, and what a reset sends, a
  -- look at the usage and a refund, needs the right to reset.
  pub handle_effect :
      (req : Request) (w : World S)
      → Adds
          (λ (w : World S). w.sent)
          (MaySend deps.policy req.route w)
          req
          w
          (handle rt deps req w).1
  handle_effect req w =
      handle-Adds (λ w. w.sent) (MaySend deps.policy req.route w) rt deps req w
        (λ user s route routed.
          let (new, added, all) = serves_sent user s req route w in
          (new, added, subst (λ r. All (MaySend deps.policy r w user) new) (sym routed) all))
        (login_quiet req w) (logout_quiet req w)
