-- ===== src/App/Turns.antt =====
-- What a request does to the whole state: nothing, a login, a logout, or a run of moves on behalf of
-- the user it comes from.
use regional_rate_limiter.Prelude.{
  ℕ, ◌+◌, String, true, some, ◌≡◌, refl, inl, inr, Bool-cases, Option-cases,
}
use regional_rate_limiter.Js.{Number, Runtime}
use regional_rate_limiter.Rbac.{User, review_approve}
use regional_rate_limiter.Session.{
  Session, object_at, get_user, create_session, destroy_session, get_session, passes_csrf,
}
use regional_rate_limiter.Session.Token.{passes_csrf_iff}
use regional_rate_limiter.World.{World, pure, throw}
use regional_rate_limiter.World.Runs.{Run, Runs, still, Runs-pure}
use regional_rate_limiter.Routes.{AppDeps, AuthMode, dev, oidc}
use regional_rate_limiter.Routes.Running.{
  list_audit_route-Runs, config_audit_route-Runs, guard-Runs, create_limit_route-Runs,
  update_limit_route-Runs, delete_limit_route-Runs, refund_route-Runs, list_limits_route-Runs,
  list_services_route-Runs, get_service_route-Runs, create_service_route-Runs,
  edit_service_route-Runs, resolve_limit_route-Runs, usage_route-Runs, reset_route-Runs,
  list_reviews_route-Runs, approve_route-Runs, reject_route-Runs,
}
use regional_rate_limiter.App.{
  ApiRoute, list_audit, config_audit, session, list_limits, resolve_limit, create_limit,
  update_limit, delete_limit, list_services, create_service, usage, refund, reset, list_reviews,
  action_log, get_service, edit_service, approve_review, reject_review, no_route, Route, healthz,
  login, logout, api, method_of, Request, serve, gated, serve_session, route_request, dev_login,
  log_out, handle,
}
use regional_rate_limiter.App.{login_object, login_mode}
use regional_rate_limiter.App.Gate.{IsFrom, settle_world}

pub data Turn {S : Type 0} (rt : Runtime) (req : Request) (w w' : World S) : Type 0 where
  idle : w' ≡ w → Turn rt req w w'
  logs_in :
      (id : String) (i : ℕ) (time : Number)
      → get_user id w.auth ≡ some i
      → w' ≡ record w {
        auth =
            (create_session (rt.random_hex w.draws) (rt.random_hex (w.draws + 1)) time i w.auth).1;
        draws = w.draws + 2;
        readings = w.readings + 1;
      }
      → Turn rt req w w'
  logs_out : w' ≡ record w { auth = destroy_session req.cookie w.auth } → Turn rt req w w'
  acts : (user : User) → IsFrom req w user → Run rt user.email w w' → Turn rt req w w'

module _ {S : Type 0} (rt : Runtime) (deps : AppDeps S) where
  serve-Runs :
      (user : User) (s : Session) (req : Request) (route : ApiRoute)
      → Runs rt user.email (serve rt deps user s req route)
  unfolding serve
  serve-Runs user s req session = Runs-pure _
  serve-Runs user s req list_limits = list_limits_route-Runs rt deps user req.query
  serve-Runs user s req resolve_limit = resolve_limit_route-Runs rt deps user req.query
  serve-Runs user s req create_limit = create_limit_route-Runs rt deps user req.body
  serve-Runs user s req update_limit = update_limit_route-Runs rt deps user req.body
  serve-Runs user s req delete_limit = delete_limit_route-Runs rt deps user req.body
  serve-Runs user s req list_services = list_services_route-Runs rt deps user req.query
  serve-Runs user s req (get_service name) = get_service_route-Runs rt deps user name
  serve-Runs user s req create_service = create_service_route-Runs rt deps user req.body
  serve-Runs user s req (edit_service name) = edit_service_route-Runs rt deps user name req.body
  serve-Runs user s req usage = usage_route-Runs rt deps user req.query
  serve-Runs user s req list_audit = list_audit_route-Runs rt deps user req.query
  serve-Runs user s req (config_audit id) = config_audit_route-Runs rt deps user id req.query
  serve-Runs user s req refund = refund_route-Runs rt deps user req.body
  serve-Runs user s req reset = reset_route-Runs rt deps user req.body
  serve-Runs user s req list_reviews = list_reviews_route-Runs rt deps user
  serve-Runs user s req (approve_review id) = approve_route-Runs rt deps user id
  serve-Runs user s req (reject_review id) = reject_route-Runs rt deps user id
  serve-Runs user s req action_log =
      guard-Runs rt deps user review_approve _ _ (still _ (λ w. refl))
  serve-Runs user s req (no_route m) = Runs-pure _

  session-Turn :
      (req : Request) (w : World S) (route : ApiRoute) (s : Session)
      → req.route ≡ api route
      → get_session req.cookie w.auth ≡ some s
      → passes_csrf (method_of route) req.csrf s ≡ true
      → Turn rt req w (serve_session rt deps s req route w).1
  unfolding serve_session throw
  session-Turn req w route s routed found csrf =
      elim (Option-cases (object_at w.auth.objects s.user)) [
        | inl gone ↦ rw (gone, serve_session) (idle refl)
        | inr (user, owner) ↦
            let from : IsFrom req w user = record {
              route = route;
              routed = routed;
              live = s;
              found = found;
              owner = owner;
              csrf = (passes_csrf_iff req.csrf s (method_of route)).0 csrf;
            } in
            rw (owner, serve_session) (acts user from ((serve-Runs user s req route).at w))
      ]

  api-Turn :
      (req : Request) (w : World S) (route : ApiRoute)
      → req.route ≡ api route
      → Turn rt req w (gated rt deps (get_session req.cookie w.auth) req route w).1
  unfolding gated pure
  api-Turn req w route routed = elim (Option-cases (get_session req.cookie w.auth)) [
    | inl gone ↦ rw gone (idle refl)
    | inr (s, found) ↦ elim (Bool-cases (passes_csrf (method_of route) req.csrf s)) [
      | inl passed ↦ rw found (rw passed (session-Turn req w route s routed found passed))
      | inr refused ↦ rw found (rw refused (idle refl))
    ]
  ]

  login-Turn :
      (req : Request) (w : World S) (mode : AuthMode) (id : String)
      → Turn rt req w (login_mode rt deps mode id w).1
  unfolding login_mode pure throw
  login-Turn req w oidc id = idle refl
  login-Turn req w dev id = elim (Option-cases (get_user id w.auth)) [
    | inl unknown ↦ rw unknown (idle refl)
    | inr (i, known) ↦ elim (Option-cases (object_at w.auth.objects i)) [
      | inl gone ↦ rw (known, login_object) (rw gone (idle refl))
      | inr (user, owner) ↦ rw (known, login_object) (rw owner (logs_in id i _ known refl))
    ]
  ]

  route-Turn :
      (req : Request) (w : World S) (route : Route)
      → req.route ≡ route
      → Turn rt req w (route_request rt deps req route w).1
  unfolding route_request pure dev_login log_out
  route-Turn req w healthz e = idle refl
  route-Turn req w login e = login-Turn req w deps.auth_mode _
  route-Turn req w logout e = logs_out refl
  route-Turn req w (api route) e = api-Turn req w route e

  pub handle-Turn : (req : Request) (w : World S) → Turn rt req w (handle rt deps req w).1
  unfolding handle
  handle-Turn req w =
      rw (settle_world (route_request rt deps req req.route w)) (route-Turn req w req.route refl)
