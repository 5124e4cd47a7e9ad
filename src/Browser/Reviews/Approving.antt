-- ===== src/Browser/Reviews/Approving.antt =====
-- Approving a change on the page of reviews, with the server of quotaui/bff behind the network.
use regional_rate_limiter.Prelude.{
  String, true, Option, none, some, ◌≡◌, ◌≢◌, refl, sym, ◌↔◌, Among, Among-keep,
}
use regional_rate_limiter.Prelude.Dict
use regional_rate_limiter.Prelude.Dict.{get-put_same}
use regional_rate_limiter.Js.{Runtime, Number, end}
use regional_rate_limiter.Rbac.{User, review_approve}
use regional_rate_limiter.Validation.{LimitKey}
use regional_rate_limiter.Rpc.{RawLimit}
use regional_rate_limiter.Rpc.Backends.{Reply, reply, UpdateLimitRequest}
use regional_rate_limiter.Session.{get, post}
use regional_rate_limiter.Reviews.{
  PendingOp, Review, ReviewStatus, Decision, pending, approved, rejected, is_pending, list_pending,
}
use regional_rate_limiter.Reviews.Lifecycle.{outcome}
use regional_rate_limiter.World.{World}
use regional_rate_limiter.Routes.{AppDeps, guard}
use regional_rate_limiter.Routes.Allowed.{May}
use regional_rate_limiter.Routes.Reviewing.{list_reviews_route, read_pending}
use regional_rate_limiter.App.{api, approve_review, list_reviews, serve, settle}
use regional_rate_limiter.App.Gate.{IsFrom}
use regional_rate_limiter.App.Access.{api_injective, handle-serve}
use regional_rate_limiter.App.Approval.{asked, applied, approve_update}
use regional_rate_limiter.Browser.{Tab, request, req}
use regional_rate_limiter.Browser.Api.{post_approval, get_reviews}
use regional_rate_limiter.Browser.Reviews.{ReviewsPage, load, decide}
use regional_rate_limiter.Browser.Session.SignIn.{bff}

pending_iff : (s : ReviewStatus) → (is_pending s ≡ true) ↔ (s ≡ pending)
pending_iff pending = (λ h. refl, λ h. refl)
pending_iff approved = (λ h. cc, λ h. cc)
pending_iff rejected = (λ h. cc, λ h. cc)

list_pending_exact :
    (store : Dict.Dict Review) (r : Review)
    → Among r (list_pending store) ↔ (Among r (Dict.values store) × (r.status ≡ pending))
unfolding list_pending
list_pending_exact store r =
    let thinned = Among-keep (λ (x : Review). is_pending x.status) r (Dict.values store) in
    (
      λ h. ((thinned.0 h).0, (pending_iff r.status).0 (thinned.0 h).1),
      λ h. thinned.1 (h.0, (pending_iff r.status).1 h.1),
    )

module _ {S : Type 0} (rt : Runtime) (deps : AppDeps S) (user : User) where
  -- The queue that the page loads.
  load_result :
      (p : ReviewsPage) (t : Tab (World S))
      → IsFrom (request get (api list_reviews) end none t.client) t.remote user
      → May user deps.policy review_approve none
      → load rt (bff rt deps) p t
        ≡ (record p { reviews = list_pending t.remote.reviews; error = none }, t)
  unfolding load get_reviews req serve settle list_reviews_route read_pending guard
  load_result p t from may =
      rw (handle-serve rt deps _ _ user from) (rw (sym (api_injective from.routed)) (rw may refl))

-- A pending change of a limit, filed by somebody else, that a user may approve and the control plane
-- accepts.
module _ {S : Type 0} (rt : Runtime) (deps : AppDeps S) (user : User) (t : Tab (World S))
    (id : String)
    (from : IsFrom (request post (api (approve_review id)) end none t.client) t.remote user)
    (may : May user deps.policy review_approve none) (b : Review)
    (found : Dict.get id t.remote.reviews ≡ some b) (open_review : b.status ≡ pending)
    (other : b.initiator ≢ user.email) (key : LimitKey) (n : Number) (unit : String)
    (op : b.op ≡ PendingOp.limit_update key n unit)
    (f : UpdateLimitRequest → Option String → S → Reply RawLimit × S)
    (method : deps.backends.update_limit ≡ some f) (raw : RawLimit) (s : S)
    (works : f (asked rt deps user key n unit) (some user.email) t.remote.backend
      ≡ (reply raw, s)) where
  decide_result :
      (p : ReviewsPage)
      → decide rt (bff rt deps) id true p t ≡ (
        record p {
          reviews = list_pending (applied rt deps user id b key n unit s t.remote).reviews;
          error = none;
        },
        record t { remote = applied rt deps user id b key n unit s t.remote },
      )
  unfolding decide post_approval req serve settle
  decide_result p =
      let from' : IsFrom (request get (api list_reviews) end none t.client)
          (applied rt deps user id b key n unit s t.remote) user =
        record {
          route = list_reviews;
          routed = refl;
          live = from.live;
          found = from.found;
          owner = from.owner;
          csrf = tt;
        } in
      rw (handle-serve rt deps _ _ user from) (
        rw (sym (api_injective from.routed)) (
          rw
            (approve_update rt deps user id t.remote b key n unit f raw s may found open_review
              other op method works)
            (load_result rt deps user _
              (record t { remote = applied rt deps user id b key n unit s t.remote }) from' may)))

  -- Approving works, from the page of reviews to the server and back: if a limit update is
  -- pending, filed by somebody else, and the browser's user may approve reviews, then, if the
  -- control plane accepts the update with the user as its actor, the page shows no error, and
  -- exactly the reviews that the server then stores and that are pending; the review is approved,
  -- by that user and at the time that the clock showed, and otherwise as it was; and the control
  -- plane is in the state after the update.
  pub decide_applies :
      (p : ReviewsPage)
      → let (p', t') = decide rt (bff rt deps) id true p t in
        (p'.error ≡ none)
        × ((r : Review)
            → Among r p'.reviews ↔ (Among r (Dict.values t'.remote.reviews) × (r.status ≡ pending)))
        × (Dict.get id t'.remote.reviews
            ≡ some (outcome b user.email Decision.approve (rt.now_iso t.remote.readings)))
        × (t'.remote.backend ≡ s)
  decide_applies p =
      rw (decide_result p) (refl, list_pending_exact _, get-put_same id _ t.remote.reviews, refl)
