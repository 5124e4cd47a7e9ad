-- ===== src/Browser/Session/SignIn.antt =====
-- Signing in and out, with the server of quotaui/bff behind the network.
use regional_rate_limiter.Prelude.{
  ℕ, ◌+◌, String, Option, none, some, ◌≡◌, ◌≢◌, refl, ◌∙◌, ◌==◌, eq_refl, eq_of_ne, if◌then◌else◌,
  Bool-cases, inl, inr,
}
use regional_rate_limiter.Prelude.Dict
use regional_rate_limiter.Prelude.Dict.{get-put, get-remove}
use regional_rate_limiter.Js.{Runtime, Fields, property, to_text}
use regional_rate_limiter.Rbac.{User, editable_services}
use regional_rate_limiter.Session.{
  Session, HttpMethod, get, head, options, post, put, patch, delete, object_at, get_user,
  create_session, get_session, destroy_session,
}
use regional_rate_limiter.Session.Token.{Carries}
use regional_rate_limiter.World.{World, pure, throw}
use regional_rate_limiter.Routes.{respond, error_body, AppDeps, dev}
use regional_rate_limiter.App.{
  ApiRoute, api, method_of, handle, route_request, dev_login, login_mode, login_object, login_as,
  log_out, settle,
}
use regional_rate_limiter.App.Gate.{IsFrom}
use regional_rate_limiter.App.Access.{turned_away}
use regional_rate_limiter.Browser.{
  Server, arrived, Tab, request, is_get, req, json_fields, json_value,
}
use regional_rate_limiter.Browser.Api.{sign_in, sign_out}
use regional_rate_limiter.Browser.Session.{Provider, SessionInfo, login, logout, apply}

abbrev pub bff : {S : Type 0} → Runtime → AppDeps S → Server (World S)
bff rt deps r w = let (res, w') = handle rt deps r w in (arrived res, w')

-- The header that the client sends passes the gate of the session whose token it holds.
pub token-Carries :
    (m : HttpMethod) (s : Session)
    → s.csrf_token ≢ ""
    → Carries m (if is_get m then none else some s.csrf_token) s
token-Carries get s ne = tt
token-Carries head s ne = tt
token-Carries options s ne = tt
token-Carries post s ne = (refl, ne)
token-Carries put s ne = (refl, ne)
token-Carries patch s ne = (refl, ne)
token-Carries delete s ne = (refl, ne)

module _ {S : Type 0} (rt : Runtime) (deps : AppDeps S) where
  -- The session that a login of the user at this position opens.
  abbrev opened : ℕ → World S → Session
  opened i w = record {
    id = rt.random_hex w.draws;
    user = i;
    csrf_token = rt.random_hex (w.draws + 1);
    created_at = rt.now_ms w.readings;
  }

  abbrev after_login : ℕ → World S → World S
  after_login i w = record w {
    auth = record w.auth { sessions = Dict.put (opened i w).id (opened i w) w.auth.sessions };
    draws = w.draws + 2;
    readings = w.readings + 1;
  }

  opened_found :
      (i : ℕ) (w : World S)
      → rt.random_hex w.draws ≢ ""
      → get_session (some (opened i w).id) (after_login i w).auth ≡ some (opened i w)
  unfolding get_session
  opened_found i w ne = rw (eq_of_ne (rt.random_hex w.draws) "" ne) (
      get-put (opened i w).id (opened i w).id (opened i w) w.auth.sessions
      ∙ rw (eq_refl (opened i w).id) refl)

  login_result :
      (id : String) (p : Provider) (t : Tab (World S)) (i : ℕ) (u : User)
      → deps.auth_mode ≡ dev
      → get_user id t.remote.auth ≡ some i
      → object_at t.remote.auth.objects i ≡ some u
      → login rt (bff rt deps) id p t ≡ (
        record p {
          session = some (record {
            id = u.id;
            email = u.email;
            grants = u.grants;
            editable_services = editable_services u;
            csrf_token = rt.random_hex (t.remote.draws + 1);
          });
        },
        record {
          client = record {
            csrf_token = rt.random_hex (t.remote.draws + 1);
            cookie = some (rt.random_hex t.remote.draws);
          };
          remote = after_login i t.remote;
        },
      )
  unfolding login sign_in req apply handle route_request dev_login login_mode login_object login_as
      settle create_session json_fields json_value property to_text throw pure
  login_result id p t i u mode known there = rw mode (rw (known, login_object) (rw there refl))

  -- Signing in works, whatever the browser held before: in dev mode, a person of the grant store who
  -- signs in gets a session in the page with their e-mail and their grants; and every request that the
  -- page then makes to the API, whatever its route and its content, comes from that person and passes
  -- both gates. Random texts are not empty.
  pub login-IsFrom :
      (id : String) (p : Provider) (t : Tab (World S)) (i : ℕ) (u : User)
      → ((n : ℕ) → rt.random_hex n ≢ "")
      → deps.auth_mode ≡ dev
      → get_user id t.remote.auth ≡ some i
      → object_at t.remote.auth.objects i ≡ some u
      → let (p', t') = login rt (bff rt deps) id p t in
        ((info : SessionInfo) × (p'.session ≡ some info)
          × (info.email ≡ u.email)
          × (info.grants ≡ u.grants))
        × ((route : ApiRoute) (query : Fields) (body : Option Fields)
            → IsFrom (request (method_of route) (api route) query body t'.client) t'.remote u)
  login-IsFrom id p t i u named mode known there = rw (login_result id p t i u mode known there) (
    (_, refl, refl, refl),
    λ route query body. record {
      route = route;
      routed = refl;
      live = opened i t.remote;
      found = opened_found i t.remote (named t.remote.draws);
      owner = there;
      csrf = token-Carries (method_of route) (opened i t.remote) (named (t.remote.draws + 1));
    },
  )

  destroyed :
      (id : String) (w : World S) → get_session (some id) (destroy_session (some id) w.auth) ≡ none
  unfolding get_session destroy_session
  destroyed id w = elim (Bool-cases (id == "")) [
    | inl blank ↦ rw blank refl
    | inr named ↦ rw named (get-remove id id w.auth.sessions ∙ rw (eq_refl id) refl)
  ]

  logout_result :
      (p : Provider) (t : Tab (World S))
      → logout rt (bff rt deps) p t ≡ (
        record p { session = none },
        record {
          client = record { csrf_token = ""; cookie = none };
          remote = record t.remote { auth = destroy_session t.client.cookie t.remote.auth };
        },
      )
  unfolding logout sign_out req apply handle route_request log_out settle
  logout_result p t = refl

  -- Signing out works, for a browser that holds a cookie: the page has no session and no token,
  -- the server knows the session of the old cookie no more, not even for one who kept the cookie,
  -- and every request that the page then makes to the API is answered with 401 and changes
  -- nothing.
  pub logout-IsRefused :
      (p : Provider) (t : Tab (World S)) (id : String)
      → t.client.cookie ≡ some id
      → let (p', t') = logout rt (bff rt deps) p t in
        (p'.session ≡ none)
        × (t'.client.csrf_token ≡ "")
        × (get_session (some id) t'.remote.auth ≡ none)
        × ((route : ApiRoute) (query : Fields) (body : Option Fields)
            → handle rt deps (request (method_of route) (api route) query body t'.client) t'.remote
              ≡ (respond 401 (error_body "not authenticated"), t'.remote))
  unfolding get_session
  logout-IsRefused p t id held = rw (logout_result p t) (
    refl,
    refl,
    rw held (destroyed id t.remote),
    λ route query body. turned_away rt deps _ route _ refl refl,
  )
