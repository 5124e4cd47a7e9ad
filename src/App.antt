-- ===== src/App.antt =====
-- quotaui/bff/src/app.ts, with the handlers of quotaui/bff/src/session.ts: from a request to its
-- response. Express has matched the path: a request names its route. Serving the compiled browser
-- program and the attributes of the cookie are left out.
pub mod Gate
pub mod Turns
pub mod WellFormed
pub mod Held
pub mod History
pub mod Authors
pub mod Interleaving
pub mod Access
pub mod Approval
pub mod Effects
pub mod Attribution
use regional_rate_limiter.Prelude.{
  ℕ, zero, suc, ◌+◌, String, Bool, true, false, Option, none, some, List, [], ◌∷◌, if◌then◌else◌,
}
use regional_rate_limiter.Prelude.Int.{pos}
use regional_rate_limiter.Js.{Runtime, Fields, property, template}
use regional_rate_limiter.Rbac.{User, editable_services, review_approve}
use regional_rate_limiter.Rpc.{RpcError, Thrown, rpc_error, other_error}
use regional_rate_limiter.ActionLog
use regional_rate_limiter.Session.{
  Session, object_at, get_user, create_session, get_session, destroy_session, HttpMethod, get, post,
  put, delete, passes_csrf,
}
use regional_rate_limiter.World.{World, Outcome, done, thrown, Exec, pure, throw}
use regional_rate_limiter.Routes.{
  Response, Payload, respond, error_body, rpc_error_body, session_body, entries_body, ok_body,
  health_body, set_cookie, clear_cookie, AppDeps, AuthMode, dev, oidc, guard, text_or_empty,
}
use regional_rate_limiter.Routes.Limits.{
  list_limits_route, resolve_limit_route, create_limit_route, update_limit_route,
  delete_limit_route,
}
use regional_rate_limiter.Routes.Audit.{list_audit_route, config_audit_route}
use regional_rate_limiter.Routes.Ops.{refund_route, reset_route, usage_route}
use regional_rate_limiter.Routes.Reviewing.{list_reviews_route, approve_route, reject_route}
use regional_rate_limiter.Routes.Services.{
  list_services_route, get_service_route, create_service_route, edit_service_route,
}

-- The routes of `api`, behind the two gates.
pub data ApiRoute : Type 0 where
  session list_limits resolve_limit create_limit update_limit delete_limit : ApiRoute
  list_services create_service usage refund reset list_reviews action_log : ApiRoute
  list_audit : ApiRoute
  config_audit : String → ApiRoute
  get_service edit_service approve_review reject_review : String → ApiRoute
  no_route : HttpMethod → ApiRoute

pub data Route : Type 0 where
  healthz login logout : Route
  api : ApiRoute → Route

abbrev pub method_of : ApiRoute → HttpMethod
method_of create_limit = post
method_of update_limit = put
method_of delete_limit = delete
method_of create_service = post
method_of (edit_service name) = put
method_of refund = post
method_of reset = post
method_of (approve_review id) = post
method_of (reject_review id) = post
method_of (no_route m) = m
method_of _ = get

pub record Request : Type 0 where
  pub route : Route
  pub cookie : Option String
  pub csrf : Option String  -- the x-csrf-token header
  pub query : Fields
  pub body : Fields

-- `sessionPayload`
abbrev pub session_payload : User → Session → Payload
session_payload user s = session_body user (editable_services user) s.csrf_token

-- `errorMiddleware`; the default handler of Express for an unknown route is a 404.
abbrev pub error_response : Thrown → Response
error_response (rpc_error e) = respond e.http_status (rpc_error_body e.message e.code)
error_response (other_error message) = respond 500 (error_body message)

module _ {S : Type 0} where
  unfoldable pub settle : Outcome Response × World S → Response × World S
  settle (done r, w) = (r, w)
  settle (thrown e, w) = (error_response e, w)

module _ {S : Type 0} (rt : Runtime) (deps : AppDeps S) where
  -- `devLogin`, for a user of the grant store
  unfoldable pub login_as : User → ℕ → Exec S Response
  login_as user i w =
      let (s, auth) =
        create_session (rt.random_hex w.draws) (rt.random_hex (w.draws + 1)) (rt.now_ms w.readings)
          i w.auth in
      (
        done (record { status = 200; body = session_payload user s; cookie = set_cookie s.id }),
        record w { auth = auth; draws = w.draws + 2; readings = w.readings + 1 },
      )

  unfoldable pub login_object : String → Option ℕ → Exec S Response
  unfolding login_as
  login_object id none w =
      pure (respond 401 (error_body (template ("unknown user '" ∷ id ∷ "'" ∷ [])))) w
  login_object id (some i) w = elim (object_at w.auth.objects i) [
    | none ↦ throw (other_error "dangling user") w
    | some user ↦ login_as user i w
  ]

  unfoldable pub login_mode : AuthMode → String → Exec S Response
  unfolding login_object
  login_mode oidc id w = pure (respond 404 (error_body "dev login disabled (AUTH_MODE=oidc)")) w
  login_mode dev id w = login_object id (get_user id w.auth) w

  unfoldable pub dev_login : Fields → Exec S Response
  unfolding login_mode
  dev_login body = login_mode deps.auth_mode (text_or_empty rt (property "user" body))

  unfoldable pub log_out : Option String → Exec S Response
  log_out cookie w = (
    done (record { status = 200; body = ok_body; cookie = clear_cookie }),
    record w { auth = destroy_session cookie w.auth },
  )

  unfoldable pub read_log : Exec S Response
  read_log w = (done (respond 200 (entries_body (ActionLog.list none (some (pos 200)) w.log))), w)

  -- A route behind both gates, for the session's user.
  unfoldable pub serve : User → Session → Request → ApiRoute → Exec S Response
  unfolding read_log
  serve user s req session = pure (respond 200 (session_payload user s))
  serve user s req list_limits = list_limits_route rt deps user req.query
  serve user s req resolve_limit = resolve_limit_route rt deps user req.query
  serve user s req create_limit = create_limit_route rt deps user req.body
  serve user s req update_limit = update_limit_route rt deps user req.body
  serve user s req delete_limit = delete_limit_route rt deps user req.body
  serve user s req list_services = list_services_route rt deps user req.query
  serve user s req (get_service name) = get_service_route rt deps user name
  serve user s req create_service = create_service_route rt deps user req.body
  serve user s req (edit_service name) = edit_service_route rt deps user name req.body
  serve user s req usage = usage_route rt deps user req.query
  serve user s req list_audit = list_audit_route rt deps user req.query
  serve user s req (config_audit id) = config_audit_route rt deps user id req.query
  serve user s req refund = refund_route rt deps user req.body
  serve user s req reset = reset_route rt deps user req.body
  serve user s req list_reviews = list_reviews_route rt deps user
  serve user s req (approve_review id) = approve_route rt deps user id
  serve user s req (reject_review id) = reject_route rt deps user id
  serve user s req action_log = guard deps user review_approve none read_log
  serve user s req (no_route m) = pure (respond 404 (error_body "not found"))

  -- The session's user object; sessions refer to objects that exist.
  unfoldable pub serve_session : Session → Request → ApiRoute → Exec S Response
  serve_session s req route w = elim (object_at w.auth.objects s.user) [
    | none ↦ throw (other_error "dangling user") w
    | some user ↦ serve user s req route w
  ]

  -- `requireAuth`, then `requireCsrf`, then the route
  unfoldable pub gated : Option Session → Request → ApiRoute → Exec S Response
  unfolding serve_session
  gated none req route = pure (respond 401 (error_body "not authenticated"))
  gated (some s) req route =
      if passes_csrf (method_of route) req.csrf s
      then serve_session s req route
      else pure (respond 403 (error_body "bad or missing CSRF token"))

  unfoldable pub route_request : Request → Route → Exec S Response
  unfolding gated
  route_request req healthz w = pure (respond 200 health_body) w
  route_request req login w = dev_login req.body w
  route_request req logout w = log_out req.cookie w
  route_request req (api route) w = gated (get_session req.cookie w.auth) req route w

  -- The whole application: a request to a response and the next state.
  unfoldable pub handle : Request → World S → Response × World S
  unfolding route_request settle
  handle req w = settle (route_request req req.route w)
