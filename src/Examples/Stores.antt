-- ===== src/Examples/Stores.antt =====
-- The theorems on the stores of sessions and on failing approvals, at concrete inputs.
use regional_rate_limiter.Prelude.{
  String, false, Option, none, some, [], ◌≡◌, ◌≢◌, refl, arith, eq_iff,
}
use regional_rate_limiter.Prelude.Dict
use regional_rate_limiter.Prelude.Int.{pos}
use regional_rate_limiter.Js.{int}
use regional_rate_limiter.Rbac.{
  review_approve, authorize, has_global_role, is_global_operator_or_admin,
}
use regional_rate_limiter.Session.{Session}
use regional_rate_limiter.Rpc.{rpc_error, to_rpc_error, ServiceError, not_found}
use regional_rate_limiter.Rpc.Backends.{Reply, failure, DeleteLimitRequest}
use regional_rate_limiter.Reviews.{create, new_review, Review, PendingOp, Decision, with_decision}
use regional_rate_limiter.World.{World, thrown}
use regional_rate_limiter.Routes.Allowed.{May}
use regional_rate_limiter.Routes.Failing.{approve_failure}
use regional_rate_limiter.Routes.Reviewing.{approve_route}
use regional_rate_limiter.Mocks.{Mocks, mock_backends}
use regional_rate_limiter.Mocks.Quotamgmt
use regional_rate_limiter.Examples.{engine, deps, start, bob, api_key, noon}

abbrev alices : Session
alices = record { id = "a"; user = 0; csrf_token = "token"; created_at = int (pos 0) }

-- Alice has asked for the deletion of a limit that does not exist.
abbrev deletion_held : World Mocks
deletion_held = record start {
  reviews = (create "r2" (PendingOp.limit_delete api_key) "alice@x" "reason" "t0" []).1;
}

abbrev deletion : Review
deletion = new_review "r2" (PendingOp.limit_delete api_key) "alice@x" "reason" "t0"

abbrev missing : ServiceError
missing = record { code = some not_found; details = "no such limit"; message = "no such limit" }

abbrev mock_delete : DeleteLimitRequest → Option String → Mocks → Reply (Unit {0}) × Mocks
mock_delete req actor m =
    let (r, g) = Quotamgmt.delete_limit noon req actor m.mgmt in (r, record m { mgmt = g })

bob-May : May bob deps.policy review_approve none
unfolding authorize is_global_operator_or_admin has_global_role
bob-May = refl

deletion_there : Dict.get "r2" deletion_held.reviews ≡ some deletion
unfolding create Dict.get Dict.put
deletion_there = refl

alices_own : deletion.initiator ≢ bob.email
alices_own e = ground (arith, (eq_iff deletion.initiator bob.email).1 e)

mock_deletes : deps.backends.delete_limit ≡ some mock_delete
unfolding mock_backends
mock_deletes = refl

deletion_fails :
    mock_delete
      (record { key = api_key; allow_missing = false })
      (some bob.email)
      deletion_held.backend
    ≡ (failure missing, deletion_held.backend)
unfolding Quotamgmt.delete_limit Dict.get
deletion_fails = refl

approve_failure_example :
    ((approve_route engine deps bob "r2" deletion_held).0
      ≡ thrown (rpc_error (to_rpc_error missing)))
    × ((approve_route engine deps bob "r2" deletion_held).1.log ≡ deletion_held.log)
    × (Dict.get "r2" (approve_route engine deps bob "r2" deletion_held).1.reviews
        ≡ some (
            with_decision deletion bob.email Decision.approve
              (engine.now_iso deletion_held.readings)))
approve_failure_example =
    approve_failure engine deps bob "r2" deletion_held deletion api_key mock_delete missing
      deletion_held.backend bob-May deletion_there refl alices_own refl mock_deletes deletion_fails
