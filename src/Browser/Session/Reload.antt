-- ===== src/Browser/Session/Reload.antt =====
-- Loading the page again, with the server of quotaui/bff behind the network.
use regional_rate_limiter.Prelude.{false, Option, none, some, ◌≡◌, ◌≢◌, refl}
use regional_rate_limiter.Js.{Runtime, Fields, end}
use regional_rate_limiter.Rbac.{User, editable_services}
use regional_rate_limiter.Session.{Session, get, object_at, get_session}
use regional_rate_limiter.World.{World, pure}
use regional_rate_limiter.Routes.{AppDeps}
use regional_rate_limiter.App.{ApiRoute, api, session, method_of, serve, settle}
use regional_rate_limiter.App.Gate.{IsFrom}
use regional_rate_limiter.App.Access.{handle-serve}
use regional_rate_limiter.Browser.{Tab, request, req}
use regional_rate_limiter.Browser.Api.{get_session_info}
use regional_rate_limiter.Browser.Session.{SessionInfo, initial, load, apply}
use regional_rate_limiter.Browser.Session.SignIn.{bff, token-Carries}

-- What the browser still has after the page is closed: the cookie.
abbrev pub reloaded : {W : Type 0} → Tab W → Tab W
reloaded t = record t { client = record t.client { csrf_token = "" } }

-- The session of a user, as the page holds it.
abbrev pub info : User → Session → SessionInfo
info u s = record {
  id = u.id;
  email = u.email;
  grants = u.grants;
  editable_services = editable_services u;
  csrf_token = s.csrf_token;
}

module _ {S : Type 0} (rt : Runtime) (deps : AppDeps S) where
  load_result :
      (t : Tab (World S)) (s : Session) (u : User)
      → get_session t.client.cookie t.remote.auth ≡ some s
      → object_at t.remote.auth.objects s.user ≡ some u
      → load rt (bff rt deps) initial (reloaded t) ≡ (
        record { session = some (info u s); loading = false },
        record t { client = record t.client { csrf_token = s.csrf_token } },
      )
  unfolding load get_session_info req apply serve settle pure
  load_result t s u found owner =
      let from : IsFrom (request get (api session) end none (reloaded t).client) t.remote u =
        record {
          route = session;
          routed = refl;
          live = s;
          found = found;
          owner = owner;
          csrf = tt;
        } in
      rw (handle-serve rt deps _ _ u from) refl

  -- A session outlives the page: while the server knows the session of the browser's cookie and
  -- its user, and its token is not empty, a page that is loaded again, and has only the cookie,
  -- has that user's e-mail and grants as they are now, changes nothing on the server, and gets
  -- the session's token back, so that every request that it then makes to the API comes from that
  -- user and passes both gates.
  pub load-IsFrom :
      (t : Tab (World S)) (s : Session) (u : User)
      → get_session t.client.cookie t.remote.auth ≡ some s
      → object_at t.remote.auth.objects s.user ≡ some u
      → s.csrf_token ≢ ""
      → let (p', t') = load rt (bff rt deps) initial (reloaded t) in
        (p' ≡ record { session = some (info u s); loading = false })
        × (t'.remote ≡ t.remote)
        × ((route : ApiRoute) (query : Fields) (body : Option Fields)
            → IsFrom (request (method_of route) (api route) query body t'.client) t'.remote u)
  load-IsFrom t s u found owner ne = rw (load_result t s u found owner) (
    refl,
    refl,
    λ route query body. record {
      route = route;
      routed = refl;
      live = s;
      found = found;
      owner = owner;
      csrf = token-Carries (method_of route) s ne;
    },
  )
