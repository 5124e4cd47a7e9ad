-- ===== src/Examples/Data.antt =====
-- The theorems on grants, validation, reviews and the action log, at concrete inputs, and tests of
-- the definitions.
use regional_rate_limiter.Prelude.{
  String, true, false, none, some, [], ◌∷◌, ◌≡◌, ◌≢◌, refl, ◌↔◌, Any, arith, eq_iff,
}
use regional_rate_limiter.Prelude.Int.{pos}
use regional_rate_limiter.Prelude.Dict
use regional_rate_limiter.Js.{
  int, text, field, end, coerce, is_blank_text, is_finite, is_integer, less,
}
use regional_rate_limiter.Rbac.{
  Capability, authorize, default_policy, can_edit_service, editable_services,
  is_global_operator_or_admin, has_global_role,
}
use regional_rate_limiter.Rbac.Matrix.{Permits, authorize_iff, Edits}
use regional_rate_limiter.Rbac.Editable.{editable_services_exact, IsDistinct, has}
use regional_rate_limiter.Rbac.Mirror
use regional_rate_limiter.Rbac.Mirror.{
  can_do, to_server, can_do-authorize, can_do_of_authorize, blank_service_diverges,
  is_operator_or_admin,
}
use regional_rate_limiter.Validation.{valid, ValidatedLimit, validate_limit, validate_amount}
use regional_rate_limiter.Validation.Limit.{IsLimit, Denotes, validate_limit_iff}
use regional_rate_limiter.Validation.Amount.{IsAmount, validate_amount_iff}
use regional_rate_limiter.Reviews.{
  PendingOp, Review, create, new_review, Decision, decide, decided, with_decision, ReviewStore,
}
use regional_rate_limiter.Reviews.Policy.{
  default_review_policy, review_reason, NeedsReview, review_reason_iff,
}
use regional_rate_limiter.Reviews.Lifecycle.{Decides, decide_iff, Reach, here, next, tries}
use regional_rate_limiter.ActionLog.{Action, ActionLog, empty, append, limit_target, no_details}
use regional_rate_limiter.ActionLog.Order.{IsNumbered, empty-IsNumbered, append-IsNumbered}
use regional_rate_limiter.Examples.{engine, alice, erin, vic, api_key, key_fields, held}

editor_writes_own :
    (authorize erin Capability.limit_write (some "billing") default_policy).ok ≡ true
unfolding authorize can_edit_service is_global_operator_or_admin has_global_role
editor_writes_own = refl

editor_not_elsewhere :
    (authorize erin Capability.limit_write (some "search") default_policy).ok ≡ false
unfolding authorize can_edit_service is_global_operator_or_admin has_global_role
editor_not_elsewhere = refl

viewer_reads : (authorize vic Capability.limits_read none default_policy).ok ≡ true
unfolding authorize
viewer_reads = refl

erin_edits : editable_services erin ≡ "billing" ∷ []
unfolding editable_services
erin_edits = refl

amount_from_text : validate_amount engine (text "42") (int (pos 100)) ≡ valid (int (pos 42))
unfolding validate_amount coerce is_blank_text is_finite is_integer less
amount_from_text = refl

authorize_iff_example :
    ((authorize erin Capability.limit_write (some "billing") default_policy).ok ≡ true)
    ↔ Permits erin default_policy Capability.limit_write (some "billing")
authorize_iff_example = authorize_iff erin Capability.limit_write (some "billing") default_policy

editable_services_exact_example :
    IsDistinct (editable_services erin)
    × ((s : String)
        → (has (editable_services erin) s ≡ true) ↔ ((s ≢ "") × Any (Edits s) erin.grants))
editable_services_exact_example = editable_services_exact erin

abbrev billing : String
billing = "billing"

billing_named : billing ≢ ""
billing_named h = ground (arith, (eq_iff billing "").1 h)

can_do-authorize_example :
    can_do erin.grants Mirror.limit_write (some "billing") (some false)
    ≡ (authorize erin
        (to_server Mirror.limit_write)
        (some "billing")
        (record { allow_service_editor_create_service = false })).ok
can_do-authorize_example = can_do-authorize erin Mirror.limit_write "billing" false billing_named

vic_reads : (authorize vic (to_server Mirror.limits_read) none default_policy).ok ≡ true
unfolding authorize to_server
vic_reads = refl

can_do_of_authorize_example : can_do vic.grants Mirror.limits_read none (some false) ≡ true
can_do_of_authorize_example =
    can_do_of_authorize vic Mirror.limits_read none default_policy vic_reads

alice_operates : is_operator_or_admin alice.grants ≡ true
unfolding is_operator_or_admin
alice_operates = refl

blank_service_diverges_example :
    (can_do alice.grants Mirror.limit_write none none ≡ true)
    × ((authorize alice (to_server Mirror.limit_write) none default_policy).ok ≡ false)
blank_service_diverges_example =
    blank_service_diverges alice none default_policy none refl alice_operates

abbrev five_a_day : ValidatedLimit
five_a_day = record { key = api_key; limit_value = int (pos 5); time_unit = "DAY" }

validate_limit_iff_example :
    (validate_limit engine
        (key_fields (field "limit_value" (text "5") (field "time_unit" (text "DAY") end)))
      ≡ valid five_a_day)
    ↔ IsLimit engine
        (key_fields (field "limit_value" (text "5") (field "time_unit" (text "DAY") end)))
        five_a_day
validate_limit_iff_example =
    validate_limit_iff engine
      (key_fields (field "limit_value" (text "5") (field "time_unit" (text "DAY") end))) five_a_day

validate_amount_iff_example :
    (validate_amount engine (text "42") (int (pos 100)) ≡ valid (int (pos 42)))
    ↔ (Denotes engine (text "42") (int (pos 42)) × IsAmount (int (pos 42)) 100)
validate_amount_iff_example = validate_amount_iff engine 100 (text "42") (int (pos 42))

review_reason_iff_example :
    ((r : String) × (review_reason engine (PendingOp.reset api_key) default_review_policy ≡ some r))
    ↔ NeedsReview default_review_policy (PendingOp.reset api_key)
review_reason_iff_example = review_reason_iff engine default_review_policy (PendingOp.reset api_key)

abbrev held_review : Review
held_review = new_review "r1" (PendingOp.reset api_key) "alice@x" "resets a customer's window" "t0"

decide_iff_example :
    ((decide "r1" "bob@x" Decision.approve "t1" held).0
      ≡ decided (with_decision held_review "bob@x" Decision.approve "t1"))
    ↔ Decides "r1" "bob@x" Decision.approve "t1" held
        (with_decision held_review "bob@x" Decision.approve "t1")
decide_iff_example =
    decide_iff "r1" "bob@x" Decision.approve "t1" held
      (with_decision held_review "bob@x" Decision.approve "t1")

abbrev settled : ReviewStore
settled = (decide "r1" "bob@x" Decision.approve "t1" held).1

bob_decides : Reach held settled
bob_decides = next here (tries "r1" "bob@x" Decision.approve "t1" refl)

is_held : Dict.get "r1" held ≡ some held_review
unfolding Dict.get Dict.put create
is_held = refl

abbrev deletion : Action
deletion = record {
  actor = "erin@x";
  action = "limit:delete";
  target = limit_target api_key;
  details = no_details;
  request_id = none;
  initiator = none;
  approver = none;
}

append-IsNumbered_example :
    IsNumbered (append "t0" deletion empty).1
    × ((append "t0" deletion empty).1.entries ≡ (append "t0" deletion empty).0 ∷ [])
    × ((append "t0" deletion empty).0.act ≡ deletion)
append-IsNumbered_example = append-IsNumbered "t0" deletion empty empty-IsNumbered

abbrev one_entry : ActionLog
one_entry = (append "t0" deletion empty).1

one-IsNumbered : IsNumbered one_entry
one-IsNumbered = (append-IsNumbered "t0" deletion empty empty-IsNumbered).0

abbrev erin_mail : String
erin_mail = "erin@x"

erin_named : erin_mail ≢ ""
erin_named h = ground (arith, (eq_iff erin_mail "").1 h)
