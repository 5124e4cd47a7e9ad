-- ===== src/Examples/Approvals.antt =====
-- The theorems on approvals, at a concrete change.
use Prim.Native.String as Text
use regional_rate_limiter.Prelude.{
  String, Bool, true, false, Option, none, some, [], ◌∷◌, ◌++◌, ◌≡◌, ◌≢◌, refl, arith, ap, Among,
  ◌↔◌, eq_iff,
}
use regional_rate_limiter.Prelude.Int.{pos}
use regional_rate_limiter.Prelude.Dict
use regional_rate_limiter.Js.{int, end}
use regional_rate_limiter.Rbac.{
  review_approve, authorize, is_global_operator_or_admin, has_global_role,
}
use regional_rate_limiter.Rpc.{RawLimit, value}
use regional_rate_limiter.Rpc.Backends.{UpdateLimitRequest, Reply, reply}
use regional_rate_limiter.Session.{Session, post, seed_users, put_user, create_session, get_session}
use regional_rate_limiter.Reviews.{Decision}
use regional_rate_limiter.Reviews.Lifecycle.{outcome}
use regional_rate_limiter.ActionLog.{limit_target, limit_details}
use regional_rate_limiter.World.{World}
use regional_rate_limiter.Routes.Allowed.{May}
use regional_rate_limiter.Reviews.{pending, create, new_review, Review, PendingOp}
use regional_rate_limiter.ActionLog.{ActionLogEntry}
use regional_rate_limiter.App.{api, Request, approve_review, handle}
use regional_rate_limiter.App.Gate.{IsFrom}
use regional_rate_limiter.App.Approval.{asked, approval_applies}
use regional_rate_limiter.Mocks.{Mocks, mock_backends}
use regional_rate_limiter.Mocks.Quotamgmt
use regional_rate_limiter.Mocks.Quotamgmt.{StoredLimit, create_limit}
use regional_rate_limiter.Mocks.Quotaenforcer.{map_key}
use regional_rate_limiter.Browser.{Tab, request as browser_request}
use regional_rate_limiter.Browser.Session.SignIn.{bff}
use regional_rate_limiter.Browser.Reviews.{ReviewsPage, decide}
use regional_rate_limiter.Browser.Reviews.Approving.{decide_applies}
use regional_rate_limiter.Examples.{
  engine, deps, start, bob, api_key, unchanged, same_number, noon, request,
}

has_text : String → Bool
has_text Text.[] = false
has_text (Text.◌∷◌ c s) = true

bob_named : bob.email ≢ ""
unfolding has_text
bob_named e = ground (arith, ap has_text e)

-- Alice has asked for a change of a limit, under the id "r3".
abbrev change : PendingOp
change = PendingOp.limit_update api_key (int (pos 5)) "DAY"

abbrev change_held : World Mocks
change_held = record start { reviews = (create "r3" change "alice@x" "reason" "t0" []).1 }

abbrev held_change : Review
held_change = new_review "r3" change "alice@x" "reason" "t0"

is_held_change : Dict.get "r3" change_held.reviews ≡ some held_change
unfolding create Dict.get Dict.put
is_held_change = refl

bob-May : May bob deps.policy review_approve none
unfolding authorize is_global_operator_or_admin has_global_role
bob-May = refl

abbrev bobs : Session
bobs = record { id = "b"; user = 1; csrf_token = "token"; created_at = int (pos 0) }

abbrev bob_approves : Request
bob_approves = request "b" (api (approve_review "r3")) end

token_named : bobs.csrf_token ≢ ""
unfolding has_text
token_named e = ground (arith, ap has_text e)

bob_approves-IsFrom : IsFrom bob_approves change_held bob
unfolding get_session seed_users put_user Dict.get Dict.put create_session
bob_approves-IsFrom = record {
  route = approve_review "r3";
  routed = refl;
  live = bobs;
  found = refl;
  owner = refl;
  csrf = (refl, token_named);
}

by_alice : held_change.initiator ≢ bob.email
by_alice e = ground (arith, (eq_iff held_change.initiator bob.email).1 e)

approval_applies_example :
    let (res, w') = handle engine deps bob_approves change_held in
    (res.status ≡ 200)
    × ((l : StoredLimit) × (Dict.get (map_key api_key) w'.backend.mgmt.limits ≡ some l)
        × (l.limit_value ≡ int (pos 5))
        × (l.time_unit ≡ "DAY"))
    × (Dict.get "r3" w'.reviews
        ≡ some
            (outcome held_change bob.email Decision.approve (engine.now_iso change_held.readings)))
    × ((e : ActionLogEntry) × (w'.log.entries ≡ change_held.log.entries ++ e ∷ [])
        × (e.act ≡ record {
          actor = bob.email;
          action = "limit:update";
          target = limit_target api_key;
          details = limit_details (int (pos 5)) "DAY";
          request_id = none;
          initiator = some held_change.initiator;
          approver = some bob.email;
        }))
unfolding bob_approves-IsFrom
approval_applies_example =
    approval_applies engine deps unchanged same_number noon refl bob bob_approves "r3" change_held
      bob_approves-IsFrom held_change api_key (int (pos 5)) "DAY" refl bob-May bob_named
      is_held_change refl by_alice refl

-- Bob's browser, and what the mocked control plane does with the change.
abbrev bobs_tab : Tab (World Mocks)
bobs_tab = record {
  client = record { csrf_token = "token"; cookie = some "b" };
  remote = change_held;
}

bobs_approval :
    IsFrom
      (browser_request post (api (approve_review "r3")) end none bobs_tab.client)
      change_held
      bob
unfolding get_session seed_users put_user Dict.get Dict.put create_session
bobs_approval = record {
  route = approve_review "r3";
  routed = refl;
  live = bobs;
  found = refl;
  owner = refl;
  csrf = (refl, token_named);
}

abbrev mock_update : UpdateLimitRequest → Option String → Mocks → Reply RawLimit × Mocks
mock_update req actor m =
    let (r, g) = Quotamgmt.update_limit same_number noon req actor m.mgmt in
    (r, record m { mgmt = g })

mock_updates : deps.backends.update_limit ≡ some mock_update
unfolding mock_backends
mock_updates = refl

abbrev five : UpdateLimitRequest
five = asked engine deps bob api_key (int (pos 5)) "DAY"

abbrev raw_five : RawLimit
raw_five = record {
  key = api_key;
  limit_value = some (value (int (pos 5)));
  time_unit = "DAY";
  config_id = some (value (int (pos 1)));
}

abbrev stored_five : Mocks
stored_five = (mock_update five (some bob.email) change_held.backend).1

update_works : mock_update five (some bob.email) change_held.backend ≡ (reply raw_five, stored_five)
unfolding Quotamgmt.update_limit Quotamgmt.insert_limit Dict.get
update_works = refl

abbrev no_reviews : ReviewsPage
no_reviews = record { reviews = []; error = none }

decide_applies_example :
    let (p', t') = decide engine (bff engine deps) "r3" true no_reviews bobs_tab in
    (p'.error ≡ none)
    × ((r : Review)
        → Among r p'.reviews ↔ (Among r (Dict.values t'.remote.reviews) × (r.status ≡ pending)))
    × (Dict.get "r3" t'.remote.reviews
        ≡ some
            (outcome held_change bob.email Decision.approve (engine.now_iso change_held.readings)))
    × (t'.remote.backend ≡ stored_five)
decide_applies_example =
    decide_applies engine deps bob bobs_tab "r3" bobs_approval bob-May held_change is_held_change
      refl by_alice api_key (int (pos 5)) "DAY" refl mock_update mock_updates raw_five stored_five
      update_works no_reviews
