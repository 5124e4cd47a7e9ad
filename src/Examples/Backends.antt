-- ===== src/Examples/Backends.antt =====
-- The theorems on the mocked backends and on requests that run side by side, at concrete inputs, and
-- tests of whole requests.
use regional_rate_limiter.Prelude.{◌+◌, none, some, false, ◌≡◌, refl}
use regional_rate_limiter.Prelude.Dict
use regional_rate_limiter.Prelude.Int.{pos}
use regional_rate_limiter.Js.{int}
use regional_rate_limiter.Rpc.{UsageView, converted, timestamp_to_iso}
use regional_rate_limiter.Rpc.Backends.{CreateLimitRequest, UpdateLimitRequest, DeleteLimitRequest}
use regional_rate_limiter.Reviews.{Review, Decision, decide}
use regional_rate_limiter.Reviews.Lifecycle.{Progress}
use regional_rate_limiter.World.{World, done}
use regional_rate_limiter.World.Runs.{draws_text, decides}
use regional_rate_limiter.Operations.{OpContext, reset_window}
use regional_rate_limiter.App.Interleaving.{Mixed, begin, moves, interleaved_review}
use regional_rate_limiter.Mocks.{Mocks, mock_backends}
use regional_rate_limiter.Mocks.Quotaenforcer.{actor_of, map_key, counter, seed}
use regional_rate_limiter.Mocks.Quotamgmt.{Quotamgmt, create_limit, update_limit, delete_limit}
use regional_rate_limiter.Mocks.Reset.{IsReset, reset_window-IsReset}
use regional_rate_limiter.Mocks.Audit.{
  IsLawful, IsRecorded, create_limit-IsRecorded, update_limit-IsRecorded, delete_limit-IsLawful,
}
use regional_rate_limiter.Examples.{engine, unchanged, same_number, start, api_key, noon, backend}
use regional_rate_limiter.Examples.Requests.{hex_distinct, start-WellFormed, held_review, is_held}

-- Alice's request has drawn a text and waits for a backend while Bob decides on her review.
abbrev alice_waits : World Mocks
alice_waits = record start { draws = start.draws + 1 }

abbrev bob_decides : World Mocks
bob_decides = record alice_waits {
  reviews = (decide "r1" "bob@x" Decision.approve "t1" alice_waits.reviews).1;
  readings = 5;
}

side_by_side : Mixed engine start bob_decides
side_by_side =
    moves {u = alice_waits} (moves {u = start} begin "alice@x" (draws_text refl)) "bob@x"
      (decides "r1" Decision.approve "t1" 5 refl)

interleaved_review_example :
    (r' : Review) × (Dict.get "r1" bob_decides.reviews ≡ some r') × Progress held_review r'
interleaved_review_example =
    interleaved_review engine hex_distinct start bob_decides "r1" held_review start-WellFormed
      side_by_side is_held

abbrev by_bob : OpContext
by_bob = record { actor = "bob@x"; initiator = none; approver = none }

undated : timestamp_to_iso engine (some noon) ≡ converted none
unfolding timestamp_to_iso
undated = refl

thirty : (counter api_key start.backend.enforcer).consumed ≡ pos 30
unfolding seed Dict.get Dict.put map_key
thirty = refl

reset_window-IsReset_example :
    (view : UsageView) × ((reset_window engine
        (mock_backends unchanged same_number noon)
        by_bob
        api_key
        start).0
      ≡ done view)
    × IsReset engine by_bob api_key 30 start
        (reset_window engine (mock_backends unchanged same_number noon) by_bob api_key start).1
        view
reset_window-IsReset_example =
    reset_window-IsReset engine unchanged same_number noon by_bob api_key none undated 30 start
      thirty

abbrev creation : CreateLimitRequest
creation = record { key = api_key; limit_value = int (pos 5); time_unit = "DAY" }

create_limit-IsRecorded_example :
    IsRecorded
      (actor_of (some "bob@x"))
      (create_limit same_number noon creation (some "bob@x") backend.mgmt).0
      backend.mgmt
      (create_limit same_number noon creation (some "bob@x") backend.mgmt).1
create_limit-IsRecorded_example =
    create_limit-IsRecorded same_number noon (some "bob@x") backend.mgmt creation

abbrev created : Quotamgmt
created = (create_limit same_number noon creation (some "bob@x") backend.mgmt).1

abbrev change : UpdateLimitRequest
change = record {
  key = api_key;
  limit_value = int (pos 7);
  time_unit = "DAY";
  create_if_absent = false;
}

update_limit-IsRecorded_example :
    IsRecorded
      (actor_of (some "bob@x"))
      (update_limit same_number noon change (some "bob@x") created).0
      created
      (update_limit same_number noon change (some "bob@x") created).1
update_limit-IsRecorded_example =
    update_limit-IsRecorded same_number noon (some "bob@x") created change

abbrev deletion : DeleteLimitRequest
deletion = record { key = api_key; allow_missing = false }

delete_limit-IsLawful_example :
    IsLawful
      (actor_of (some "bob@x"))
      (delete_limit noon deletion (some "bob@x") created).0
      created
      (delete_limit noon deletion (some "bob@x") created).1
delete_limit-IsLawful_example =
    delete_limit-IsLawful same_number noon (some "bob@x") created deletion
