-- ===== src/App/Access.antt =====
-- The two gates in front of the routes of the API.
use regional_rate_limiter.Prelude.{
  ℕ, false, none, some, ◌≡◌, refl, sym, ◌∙◌, arith, ◌⊎◌, inl, inr, Bool-cases, Option-cases,
}
use regional_rate_limiter.Js.{Runtime}
use regional_rate_limiter.Rbac.{User}
use regional_rate_limiter.Session.{Session, get_session, passes_csrf}
use regional_rate_limiter.Session.Token.{Carries, passes_csrf_iff}
use regional_rate_limiter.World.{World, pure}
use regional_rate_limiter.Routes.{AppDeps, respond, error_body}
use regional_rate_limiter.App.{
  ApiRoute, api, method_of, Request, handle, route_request, gated, settle, serve, serve_session,
}
use regional_rate_limiter.App.Gate.{IsFrom}
use regional_rate_limiter.Session.Linked.{IsLinked, get_session_linked}

pub api_injective : {a b : ApiRoute} → api a ≡ api b → a ≡ b
api_injective e = cc

-- Why a request is turned away, and the status of the answer.
pub data IsRefused {S : Type 0} (req : Request) (route : ApiRoute) (w : World S) (status : ℕ)
    : Type 0 where
  no_session : get_session req.cookie w.auth ≡ none → status ≡ 401 → IsRefused req route w status
  bad_token :
      (s : Session)
      → get_session req.cookie w.auth ≡ some s
      → ¬ Carries (method_of route) req.csrf s
      → status ≡ 403
      → IsRefused req route w status

lacks :
    (req : Request) (route : ApiRoute) (s : Session)
    → passes_csrf (method_of route) req.csrf s ≡ false
    → ¬ Carries (method_of route) req.csrf s
lacks req route s failed carries =
    ground (arith, sym failed ∙ (passes_csrf_iff req.csrf s (method_of route)).1 carries)

module _ {S : Type 0} (rt : Runtime) (deps : AppDeps S) where
  pub turned_away :
      (req : Request) (route : ApiRoute) (w : World S)
      → get_session req.cookie w.auth ≡ none
      → req.route ≡ api route
      → handle rt deps req w ≡ (respond 401 (error_body "not authenticated"), w)
  unfolding handle route_request gated pure settle
  turned_away req route w gone routed = rw routed (rw gone refl)

  without_token :
      (req : Request) (route : ApiRoute) (w : World S) (s : Session)
      → get_session req.cookie w.auth ≡ some s
      → passes_csrf (method_of route) req.csrf s ≡ false
      → req.route ≡ api route
      → handle rt deps req w ≡ (respond 403 (error_body "bad or missing CSRF token"), w)
  unfolding handle route_request gated pure settle
  without_token req route w s found failed routed = rw routed (rw found (rw failed refl))

  -- While sessions refer to users that exist, a request to the API comes from a user, whose session
  -- its cookie names and whose own token, which is not empty, it carries if its method is POST, PUT,
  -- PATCH or DELETE; or it is turned away: with 401 if its cookie names no session, and with 403 if
  -- its cookie names one but it does not carry the token that its method asks for; then the state
  -- stays as it was.
  pub handle_gates :
      (req : Request) (route : ApiRoute) (w : World S)
      → IsLinked w.auth
      → req.route ≡ api route
      → ((user : User) × IsFrom req w user)
        ⊎ (((handle rt deps req w).1 ≡ w) × IsRefused req route w (handle rt deps req w).0.status)
  handle_gates req route w linked routed = elim (Option-cases (get_session req.cookie w.auth)) [
    | inl gone ↦ inr (rw (turned_away req route w gone routed) (refl, no_session gone refl))
    | inr (s, found) ↦ elim (Bool-cases (passes_csrf (method_of route) req.csrf s)) [
      | inl passed ↦
          let (user, owner) = get_session_linked req.cookie w.auth s linked found in
          inl (
            user,
            record {
              route = route;
              routed = routed;
              live = s;
              found = found;
              owner = owner;
              csrf = (passes_csrf_iff req.csrf s (method_of route)).0 passed;
            },
          )
      | inr failed ↦ inr (
          rw (without_token req route w s found failed routed)
            (refl, bad_token s found (lacks req route s failed) refl))
    ]
  ]

  -- A request that comes from a user is served by its route, for that user.
  pub handle-serve :
      (req : Request) (w : World S) (user : User) (from : IsFrom req w user)
      → handle rt deps req w ≡ settle (serve rt deps user from.live req from.route w)
  unfolding handle route_request gated serve_session
  handle-serve req w user from = rw (from.routed) (
      rw (from.found) (
        rw ((passes_csrf_iff req.csrf from.live (method_of from.route)).1 from.csrf)
          (rw (from.owner, serve_session) refl)))
