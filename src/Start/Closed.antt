-- ===== src/Start/Closed.antt =====
-- A server that starts with AUTH_MODE=oidc.
use regional_rate_limiter.Prelude.{String, Option, none, some, ◌≡◌, refl, arith, ap, ◌∙◌}
use regional_rate_limiter.Prelude.Dict
use regional_rate_limiter.Js.{Runtime}
use regional_rate_limiter.Session.{AuthStores, get_session, destroy_session, seed_users}
use regional_rate_limiter.World.{World, pure}
use regional_rate_limiter.Rpc.Backends.{Backends}
use regional_rate_limiter.Routes.{AppDeps}
use regional_rate_limiter.Routes.AuthMode.{oidc}
use regional_rate_limiter.App.{
  Route, ApiRoute, api, healthz, login, logout, Request, handle, route_request, dev_login,
  login_mode, log_out, settle,
}
use regional_rate_limiter.App.Access.{turned_away}
use regional_rate_limiter.App.History.{Served, begin, serves}
use regional_rate_limiter.Start.{entrypoint, make_deps, make_world, no_stores}

no_session : (cookie : Option String) (a : AuthStores) → a ≡ no_stores → get_session cookie a ≡ none
unfolding get_session Dict.get
no_session none a e = refl
no_session (some id) a e = rw e (ground arith)

destroys_nothing : (cookie : Option String) → destroy_session cookie no_stores ≡ no_stores
unfolding destroy_session Dict.remove
destroys_nothing none = refl
destroys_nothing (some id) = ground arith

module _ {S : Type 0} (rt : Runtime) (deps : AppDeps S) where
  handle-closed :
      (req : Request) (w : World S) (route : Route)
      → deps.auth_mode ≡ oidc
      → w.auth ≡ no_stores
      → req.route ≡ route
      → (handle rt deps req w).1 ≡ w
  unfolding handle route_request dev_login login_mode log_out settle pure
  handle-closed req w healthz mode closed routed = rw routed refl
  handle-closed req w login mode closed routed = rw routed (rw mode refl)
  handle-closed req w logout mode closed routed =
      let same : destroy_session req.cookie w.auth ≡ w.auth =
        rw closed (destroys_nothing req.cookie) in
      rw routed (ap (λ a. record w { auth = a }) same)
  handle-closed req w (api route) mode closed routed =
      ap (λ r. r.1) (turned_away rt deps req route w (no_session req.cookie w.auth closed) routed)

  Served-closed :
      (w w' : World S) → deps.auth_mode ≡ oidc → w.auth ≡ no_stores → Served rt deps w w' → w' ≡ w
  Served-closed w w' mode closed begin = refl
  Served-closed w w' mode closed (serves {u} before req e) =
      let same = Served-closed w u mode closed before in
      e
      ∙ handle-closed req u req.route mode (ap (λ (v : World S). v.auth) same ∙ closed) refl
      ∙ same

  login-closed :
      (req : Request) (w : World S)
      → deps.auth_mode ≡ oidc
      → req.route ≡ login
      → (handle rt deps req w).0.status ≡ 404
  unfolding handle route_request dev_login login_mode settle pure
  login-closed req w mode routed = rw routed (rw mode refl)

module _ {S : Type 0} (rt : Runtime) (backends : Backends S) (backend : S) where
  -- A process that starts with AUTH_MODE=oidc is closed: whatever requests come, its state stays as
  -- it was at the start, so that nothing reaches the backends; the login answers 404, and every route
  -- of the API 401.
  pub entrypoint-Served :
      (w : World S)
      → let p = entrypoint (some "oidc") backends in
        Served rt (make_deps (some "oidc") p) (make_world p backend) w
        → (w ≡ make_world p backend)
          × ((req : Request)
              → req.route ≡ login
              → (handle rt (make_deps (some "oidc") p) req w).0.status ≡ 404)
          × ((req : Request) (route : ApiRoute)
              → req.route ≡ api route
              → (handle rt (make_deps (some "oidc") p) req w).0.status ≡ 401)
  unfolding entrypoint make_deps make_world seed_users
  entrypoint-Served w served =
      let same = Served-closed rt _ _ w refl refl served in
      (
        same,
        λ req routed. login-closed rt _ req w refl routed,
        λ req route routed.
            ap (λ r. r.0.status)
              (turned_away rt _ req route w
                (no_session req.cookie w.auth (ap (λ (v : World S). v.auth) same)) routed),
      )
