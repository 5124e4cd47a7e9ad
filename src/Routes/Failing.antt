-- ===== src/Routes/Failing.antt =====
-- What becomes of an approved change whose backend call fails.
use regional_rate_limiter.Prelude.{
  ◌+◌, String, false, Option, none, some, [], ◌∷◌, ◌++◌, ◌≡◌, ◌≢◌, refl, ◌∙◌, eq_refl,
}
use regional_rate_limiter.Prelude.Dict
use regional_rate_limiter.Prelude.Dict.{get-put}
use regional_rate_limiter.Js.{Runtime}
use regional_rate_limiter.Rbac.{User, review_approve}
use regional_rate_limiter.Validation.{LimitKey}
use regional_rate_limiter.Rpc.{ServiceError, rpc_error, to_rpc_error}
use regional_rate_limiter.Rpc.Backends.{Reply, failure, Message, DeleteLimitRequest}
use regional_rate_limiter.Reviews.{
  PendingOp, Review, Decision, pending, decide, decided, with_decision, ReviewStore,
}
use regional_rate_limiter.Reviews.Lifecycle.{found_complete}
use regional_rate_limiter.World.{World, thrown, ◌>>=◌, call}
use regional_rate_limiter.Operations.{delete_limit, execute_pending_op}
use regional_rate_limiter.Routes.{AppDeps, guard, decide_review}
use regional_rate_limiter.Routes.Allowed.{May}
use regional_rate_limiter.Routes.Reviewing.{approve_route, apply_decision}

pub decide_open :
    (id approver now : String) (store : ReviewStore) (b : Review)
    → Dict.get id store ≡ some b
    → b.status ≡ pending
    → b.initiator ≢ approver
    → decide id approver Decision.approve now store ≡ (
      decided (with_decision b approver Decision.approve now),
      Dict.put id (with_decision b approver Decision.approve now) store,
    )
unfolding decide
decide_open id approver now store b found open_review other =
    rw (found, decide) (found_complete id approver Decision.approve now store b open_review other)

module _ {S : Type 0} (rt : Runtime) (deps : AppDeps S) (user : User) where
  abbrev approved : Review → World S → Review
  approved b w = with_decision b user.email Decision.approve (rt.now_iso w.readings)

  -- The world in which the approval is recorded and the backend has failed.
  abbrev recorded : String → Review → LimitKey → S → World S → World S
  recorded id b key s w = record w {
    backend = s;
    reviews = Dict.put id (approved b w) w.reviews;
    readings = w.readings + 1;
    sent =
        w.sent
        ++ record {
          message = Message.delete_limit (record { key = key; allow_missing = false });
          actor = some user.email;
        }
          ∷ [];
  }

  approve_fails :
      (id : String) (w : World S) (b : Review) (key : LimitKey)
      (f : DeleteLimitRequest → Option String → S → Reply (Unit {0}) × S) (err : ServiceError)
      (s : S)
      → May user deps.policy review_approve none
      → Dict.get id w.reviews ≡ some b
      → b.status ≡ pending
      → b.initiator ≢ user.email
      → b.op ≡ PendingOp.limit_delete key
      → deps.backends.delete_limit ≡ some f
      → f (record { key = key; allow_missing = false }) (some user.email) w.backend
        ≡ (failure err, s)
      → approve_route rt deps user id w
        ≡ (thrown (rpc_error (to_rpc_error err)), recorded id b key s w)
  unfolding approve_route guard decide_review ◌>>=◌ apply_decision execute_pending_op delete_limit
      call
  approve_fails id w b key f err s may found open_review other op method fails = rw may (
      rw (decide_open id user.email (rt.now_iso w.readings) w.reviews b found open_review other)
        (rw op (rw method (rw fails refl))))

  -- If the backend fails the deletion that an approver has just approved, the request throws the
  -- error of the RPC and logs nothing, yet the review stays in the store as approved.
  pub approve_failure :
      (id : String) (w : World S) (b : Review) (key : LimitKey)
      (f : DeleteLimitRequest → Option String → S → Reply (Unit {0}) × S) (err : ServiceError)
      (s : S)
      → May user deps.policy review_approve none
      → Dict.get id w.reviews ≡ some b
      → b.status ≡ pending
      → b.initiator ≢ user.email
      → b.op ≡ PendingOp.limit_delete key
      → deps.backends.delete_limit ≡ some f
      → f (record { key = key; allow_missing = false }) (some user.email) w.backend
        ≡ (failure err, s)
      → ((approve_route rt deps user id w).0 ≡ thrown (rpc_error (to_rpc_error err)))
        × ((approve_route rt deps user id w).1.log ≡ w.log)
        × (Dict.get id (approve_route rt deps user id w).1.reviews ≡ some (approved b w))
  approve_failure id w b key f err s may found open_review other op method fails =
      rw (approve_fails id w b key f err s may found open_review other op method fails)
        (refl, refl, get-put id id (approved b w) w.reviews ∙ rw (eq_refl id) refl)
