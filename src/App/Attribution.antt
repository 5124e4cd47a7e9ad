-- ===== src/App/Attribution.antt =====
-- Who the entries of the action log name: the user whose request made them.
use regional_rate_limiter.Prelude.{false, ◌≡◌, refl, sym, subst, arith, List, ◌++◌, All}
use regional_rate_limiter.Js.{Runtime}
use regional_rate_limiter.Rbac.{User, review_approve}
use regional_rate_limiter.Session.{Session}
use regional_rate_limiter.ActionLog.{ActionLogEntry}
use regional_rate_limiter.World.{World, pure, throw}
use regional_rate_limiter.World.Grows.{quiet, Grows-pure}
use regional_rate_limiter.World.Logs.{Logs}
use regional_rate_limiter.Routes.{AppDeps}
use regional_rate_limiter.Routes.Attributed.{IsOwn, IsApproved, guard-Logs}
use regional_rate_limiter.Routes.Logging.{
  list_audit_route-Logs, config_audit_route-Logs, create_limit_route-Logs, update_limit_route-Logs,
  delete_limit_route-Logs, refund_route-Logs, list_limits_route-Logs, list_services_route-Logs,
  get_service_route-Logs, create_service_route-Logs, edit_service_route-Logs,
  resolve_limit_route-Logs, usage_route-Logs, reset_route-Logs, list_reviews_route-Logs,
  approve_route-Logs, reject_route-Logs,
}
use regional_rate_limiter.App.{
  ApiRoute, list_audit, config_audit, session, list_limits, resolve_limit, create_limit,
  update_limit, delete_limit, list_services, create_service, usage, refund, reset, list_reviews,
  action_log, get_service, edit_service, approve_review, reject_review, no_route, Route, api,
  Request, serve, dev_login, log_out, handle,
}
use regional_rate_limiter.App.Gate.{approves, Adds, handle-Adds}

-- What the entries name that a request of the user leaves in the log.
abbrev pub IsAttributed : {S : Type 0} → Route → World S → User → ActionLogEntry → Type 0
IsAttributed (api (approve_review id)) w user e = IsApproved w.reviews id user e
IsAttributed _ w user e = IsOwn user e

module _ {S : Type 0} (rt : Runtime) (deps : AppDeps S) where
  serve-Logs :
      (user : User) (s : Session) (req : Request) (route : ApiRoute)
      → approves (api route) ≡ false
      → Logs (IsOwn user) (serve rt deps user s req route)
  unfolding serve
  serve-Logs user s req session h = Grows-pure _
  serve-Logs user s req list_limits h = list_limits_route-Logs rt deps user req.query
  serve-Logs user s req resolve_limit h = resolve_limit_route-Logs rt deps user req.query
  serve-Logs user s req create_limit h = create_limit_route-Logs rt deps user req.body
  serve-Logs user s req update_limit h = update_limit_route-Logs rt deps user req.body
  serve-Logs user s req delete_limit h = delete_limit_route-Logs rt deps user req.body
  serve-Logs user s req list_services h = list_services_route-Logs rt deps user req.query
  serve-Logs user s req (get_service name) h = get_service_route-Logs rt deps user name
  serve-Logs user s req create_service h = create_service_route-Logs rt deps user req.body
  serve-Logs user s req (edit_service name) h = edit_service_route-Logs rt deps user name req.body
  serve-Logs user s req usage h = usage_route-Logs rt deps user req.query
  serve-Logs user s req list_audit h = list_audit_route-Logs rt deps user req.query
  serve-Logs user s req (config_audit id) h = config_audit_route-Logs rt deps user id req.query
  serve-Logs user s req refund h = refund_route-Logs rt deps user req.body
  serve-Logs user s req reset h = reset_route-Logs rt deps user req.body
  serve-Logs user s req list_reviews h = list_reviews_route-Logs rt deps user
  serve-Logs user s req (approve_review id) h = absurd (ground arith)
  serve-Logs user s req (reject_review id) h = reject_route-Logs rt deps user id
  serve-Logs user s req action_log h = guard-Logs deps user review_approve _ _ (quiet _ (λ w. refl))
  serve-Logs user s req (no_route m) h = Grows-pure _

  serves_log :
      (user : User) (s : Session) (req : Request) (route : ApiRoute) (w : World S)
      → (new : List ActionLogEntry) × ((serve rt deps user s req route w).1.log.entries
          ≡ w.log.entries ++ new)
        × All (IsAttributed (api route) w user) new
  unfolding serve
  serves_log user s req (approve_review id) w = approve_route-Logs rt deps user id w
  serves_log user s req session w = (serve-Logs user s req session refl).at w
  serves_log user s req list_limits w = (serve-Logs user s req list_limits refl).at w
  serves_log user s req resolve_limit w = (serve-Logs user s req resolve_limit refl).at w
  serves_log user s req create_limit w = (serve-Logs user s req create_limit refl).at w
  serves_log user s req update_limit w = (serve-Logs user s req update_limit refl).at w
  serves_log user s req delete_limit w = (serve-Logs user s req delete_limit refl).at w
  serves_log user s req list_services w = (serve-Logs user s req list_services refl).at w
  serves_log user s req (get_service name) w = (serve-Logs user s req (get_service name) refl).at w
  serves_log user s req create_service w = (serve-Logs user s req create_service refl).at w
  serves_log user s req (edit_service name) w =
      (serve-Logs user s req (edit_service name) refl).at w
  serves_log user s req usage w = (serve-Logs user s req usage refl).at w
  serves_log user s req list_audit w = (serve-Logs user s req list_audit refl).at w
  serves_log user s req (config_audit id) w = (serve-Logs user s req (config_audit id) refl).at w
  serves_log user s req refund w = (serve-Logs user s req refund refl).at w
  serves_log user s req reset w = (serve-Logs user s req reset refl).at w
  serves_log user s req list_reviews w = (serve-Logs user s req list_reviews refl).at w
  serves_log user s req (reject_review id) w = (serve-Logs user s req (reject_review id) refl).at w
  serves_log user s req action_log w = (serve-Logs user s req action_log refl).at w
  serves_log user s req (no_route m) w = (serve-Logs user s req (no_route m) refl).at w

  login_quiet :
      (req : Request) (w : World S) → (dev_login rt deps req.body w).1.log.entries ≡ w.log.entries
  unfolding dev_login pure throw
  login_quiet req w = ground arith

  logout_quiet :
      (req : Request) (w : World S) → (log_out rt deps req.cookie w).1.log.entries ≡ w.log.entries
  unfolding log_out
  logout_quiet req w = refl

  -- Whatever the backends do and whatever the request, the action log keeps all its entries, in
  -- order, and gains none unless the request comes from a user with a live session and carries, if
  -- its method is POST, PUT, PATCH or DELETE, that session's own token. Then every new entry names
  -- that user as its actor. If the request approves a review, that review was pending and somebody
  -- else's, and the entry names its author as the initiator and the user as the approver; otherwise
  -- it names neither.
  pub handle_log :
      (req : Request) (w : World S)
      → Adds
          (λ (w : World S). w.log.entries)
          (IsAttributed req.route w)
          req
          w
          (handle rt deps req w).1
  handle_log req w =
      handle-Adds (λ w. w.log.entries) (IsAttributed req.route w) rt deps req w
        (λ user s route routed.
          let (new, added, all) = serves_log user s req route w in
          (new, added, subst (λ r. All (IsAttributed r w user) new) (sym routed) all))
        (login_quiet req w) (logout_quiet req w)
