-- ===== src/App/Gate.antt =====
-- The gates in front of the routes, for any list that actions only extend: a request adds to it only
-- what its user's route adds.
use mathlib.Core.List.{append-nil}
use regional_rate_limiter.Prelude.{
  Bool, true, false, some, List, [], ◌++◌, ◌≡◌, refl, sym, ◌∙◌, ◌⊎◌, inl, inr, All, Bool-cases,
  Option-cases,
}
use regional_rate_limiter.Js.{Runtime}
use regional_rate_limiter.Rbac.{User}
use regional_rate_limiter.Session.{Session, object_at, get_session, passes_csrf}
use regional_rate_limiter.Session.Token.{Carries, passes_csrf_iff}
use regional_rate_limiter.World.{World, Outcome, done, thrown, pure, throw}
use regional_rate_limiter.Routes.{Response, AppDeps}
use regional_rate_limiter.App.{
  ApiRoute, Route, healthz, login, logout, api, method_of, Request, settle, serve, gated,
  serve_session, route_request, dev_login, log_out, handle, approve_review, reset,
}

abbrev pub approves : Route → Bool
approves (api (approve_review id)) = true
approves _ = false

abbrev pub is_reset : Route → Bool
is_reset (api reset) = true
is_reset _ = false

-- The request comes from the user: its cookie names a live session of that user, and, if its method
-- is POST, PUT, PATCH or DELETE, it carries that session's own token.
pub record IsFrom {S : Type 0} (req : Request) (w : World S) (user : User) : Type 0 where
  pub route : ApiRoute
  pub routed : req.route ≡ api route
  pub live : Session
  pub found : get_session req.cookie w.auth ≡ some live
  pub owner : object_at w.auth.objects live.user ≡ some user
  pub csrf : Carries (method_of route) req.csrf live

-- What a request adds to the list that `view` shows: nothing, or items that all satisfy `P` for the
-- user it comes from.
abbrev pub Adds :
    {S X : Type 0} → (World S → List X) → (User → X → Type 0) → Request → World S → World S → Type 0
Adds {X = X} view P req w w' =
    (new : List X) × (view w' ≡ view w ++ new)
    × ((new ≡ []) ⊎ ((user : User) × (IsFrom req w user × All (P user) new)))

pub settle_world : {S : Type 0} (r : Outcome Response × World S) → (settle r).1 ≡ r.1
unfolding settle
settle_world (done r, w) = refl
settle_world (thrown e, w) = refl

module _ {S X : Type 0} (view : World S → List X) (P : User → X → Type 0) (rt : Runtime)
    (deps : AppDeps S) (req : Request) (w : World S)
    (serves : (user : User) (s : Session) (route : ApiRoute)
      → req.route ≡ api route
      → (new : List X) × (view (serve rt deps user s req route w).1 ≡ view w ++ new)
        × All (P user) new)
    (login_keeps : view (dev_login rt deps req.body w).1 ≡ view w)
    (logout_keeps : view (log_out rt deps req.cookie w).1 ≡ view w) where
  nothing : (w' : World S) → view w' ≡ view w → Adds view P req w w'
  nothing w' same = ([], same ∙ sym (append-nil (view w)), inl refl)

  session-Adds :
      (route : ApiRoute) (s : Session)
      → req.route ≡ api route
      → get_session req.cookie w.auth ≡ some s
      → passes_csrf (method_of route) req.csrf s ≡ true
      → Adds view P req w (serve_session rt deps s req route w).1
  unfolding serve_session throw
  session-Adds route s routed found csrf = elim (Option-cases (object_at w.auth.objects s.user)) [
    | inl gone ↦ rw (gone, serve_session) (nothing w refl)
    | inr (user, owner) ↦
        let (new, added, all) = serves user s route routed in
        let from : IsFrom req w user = record {
          route = route;
          routed = routed;
          live = s;
          found = found;
          owner = owner;
          csrf = (passes_csrf_iff req.csrf s (method_of route)).0 csrf;
        } in
        rw (owner, serve_session) (new, added, inr (user, (from, all)))
  ]

  api-Adds :
      (route : ApiRoute)
      → req.route ≡ api route
      → Adds view P req w (gated rt deps (get_session req.cookie w.auth) req route w).1
  unfolding gated pure
  api-Adds route routed = elim (Option-cases (get_session req.cookie w.auth)) [
    | inl gone ↦ rw gone (nothing w refl)
    | inr (s, found) ↦ elim (Bool-cases (passes_csrf (method_of route) req.csrf s)) [
      | inl passed ↦ rw found (rw passed (session-Adds route s routed found passed))
      | inr refused ↦ rw found (rw refused (nothing w refl))
    ]
  ]

  route-Adds :
      (route : Route) → req.route ≡ route → Adds view P req w (route_request rt deps req route w).1
  unfolding route_request pure
  route-Adds healthz e = nothing w refl
  route-Adds login e = nothing (dev_login rt deps req.body w).1 login_keeps
  route-Adds logout e = nothing (log_out rt deps req.cookie w).1 logout_keeps
  route-Adds (api route) e = api-Adds route e

  pub handle-Adds : Adds view P req w (handle rt deps req w).1
  unfolding handle
  handle-Adds =
      rw (settle_world (route_request rt deps req req.route w)) (route-Adds req.route refl)
