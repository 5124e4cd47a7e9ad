-- ===== src/App/Held.antt =====
-- A change that needs a second person is applied by an approval alone.
use regional_rate_limiter.Prelude.{false, ◌≡◌, refl, sym, ◌∙◌, ap, arith, subst, All}
use regional_rate_limiter.Js.{Runtime}
use regional_rate_limiter.Rbac.{User, review_approve}
use regional_rate_limiter.Session.{Session}
use regional_rate_limiter.Rpc.Backends.{Sent}
use regional_rate_limiter.World.{World}
use regional_rate_limiter.World.Grows.{quiet, Grows-pure}
use regional_rate_limiter.World.Emits.{Emits}
use regional_rate_limiter.Routes.{AppDeps}
use regional_rate_limiter.Routes.Allowed.{guard-Emits}
use regional_rate_limiter.Routes.Direct.{
  list_audit_route-IsDirect, config_audit_route-IsDirect, IsDirect, create_limit_route-IsDirect,
  update_limit_route-IsDirect, delete_limit_route-IsDirect, refund_route-IsDirect,
  list_limits_route-IsDirect, list_services_route-IsDirect, get_service_route-IsDirect,
  create_service_route-IsDirect, edit_service_route-IsDirect, resolve_limit_route-IsDirect,
  usage_route-IsDirect, reset_route-IsDirect, list_reviews_route-IsDirect, reject_route-IsDirect,
}
use regional_rate_limiter.App.{
  ApiRoute, list_audit, config_audit, session, list_limits, resolve_limit, create_limit,
  update_limit, delete_limit, list_services, create_service, usage, refund, reset, list_reviews,
  action_log, get_service, edit_service, approve_review, reject_review, no_route, api, Request,
  serve, handle,
}
use regional_rate_limiter.App.Gate.{approves, is_reset, Adds, handle-Adds}
use regional_rate_limiter.App.Effects.{login_quiet, logout_quiet}

module _ {S : Type 0} (rt : Runtime) (deps : AppDeps S) where
  serve-IsDirect :
      (user : User) (s : Session) (req : Request) (route : ApiRoute)
      → approves (api route) ≡ false
      → Emits (IsDirect deps.review_policy (is_reset (api route))) (serve rt deps user s req route)
  unfolding serve
  serve-IsDirect user s req session h = Grows-pure _
  serve-IsDirect user s req list_limits h = list_limits_route-IsDirect rt deps user false req.query
  serve-IsDirect user s req resolve_limit h =
      resolve_limit_route-IsDirect rt deps user false req.query
  serve-IsDirect user s req create_limit h = create_limit_route-IsDirect rt deps user false req.body
  serve-IsDirect user s req update_limit h = update_limit_route-IsDirect rt deps user false req.body
  serve-IsDirect user s req delete_limit h = delete_limit_route-IsDirect rt deps user false req.body
  serve-IsDirect user s req list_services h =
      list_services_route-IsDirect rt deps user false req.query
  serve-IsDirect user s req (get_service name) h =
      get_service_route-IsDirect rt deps user false name
  serve-IsDirect user s req create_service h =
      create_service_route-IsDirect rt deps user false req.body
  serve-IsDirect user s req (edit_service name) h =
      edit_service_route-IsDirect rt deps user false name req.body
  serve-IsDirect user s req usage h = usage_route-IsDirect rt deps user false req.query
  serve-IsDirect user s req list_audit h = list_audit_route-IsDirect rt deps user false req.query
  serve-IsDirect user s req (config_audit id) h =
      config_audit_route-IsDirect rt deps user false id req.query
  serve-IsDirect user s req refund h = refund_route-IsDirect rt deps user req.body
  serve-IsDirect user s req reset h = reset_route-IsDirect rt deps user req.body
  serve-IsDirect user s req list_reviews h = list_reviews_route-IsDirect rt deps user false
  serve-IsDirect user s req (approve_review id) h = absurd (ground arith)
  serve-IsDirect user s req (reject_review id) h = reject_route-IsDirect rt deps user false id
  serve-IsDirect user s req action_log h =
      guard-Emits deps user review_approve _ _ λ may. quiet _ (λ w. refl)
  serve-IsDirect user s req (no_route m) h = Grows-pure _

  -- Whatever the backends do, a request that is not an approval sends no change that the review
  -- policy holds back: no update or deletion of a limit that needs a second person; a reset sends a
  -- refund only if a reset of that key needs none, and any other request sends a refund only if a
  -- refund of that key and amount needs none.
  pub handle-IsDirect :
      (req : Request) (w : World S)
      → approves req.route ≡ false
      → Adds
          (λ (w : World S). w.sent)
          (λ user. IsDirect deps.review_policy (is_reset req.route))
          req
          w
          (handle rt deps req w).1
  handle-IsDirect req w alone =
      let P : User → Sent → Type 0 = λ user. IsDirect deps.review_policy (is_reset req.route) in
      handle-Adds (λ w. w.sent) P rt deps req w
        (λ user s route routed.
          let (new, added, all) =
            (serve-IsDirect user s req route (sym (ap approves routed) ∙ alone)).at w in
          (
            new,
            added,
            subst (λ r. All (IsDirect deps.review_policy (is_reset r)) new) (sym routed) all,
          ))
        (login_quiet rt deps req w) (logout_quiet rt deps req w)
