-- ===== src/Reviews.antt =====
-- quotaui/bff/src/reviews.ts, the two-person review store, and quotaui/bff/src/policy.ts, the test
-- whether a change needs a review.
--
-- `ReviewStore.reviews` is a map from ids. A review object is reached only through the map, and
-- `decide` writes its fields in place, so a decision is a `put` under the same id. The random id
-- and the time that a method reads are arguments.
pub mod Policy
pub mod Lifecycle
use regional_rate_limiter.Prelude.{
  ℕ, String, Bool, true, false, Option, none, some, List, [], ◌∷◌, ◌==◌, keep, if◌then◌else◌,
}
use regional_rate_limiter.Prelude.Dict
use regional_rate_limiter.Prelude.Dict.{Dict}
use regional_rate_limiter.Js.{Number, template}
use regional_rate_limiter.Validation.{LimitKey}

-- The key fields of every kind are one `LimitKey`.
pub data PendingOp : Type 0 where
  limit_update : LimitKey → (limit_value : Number) → (time_unit : String) → PendingOp
  limit_delete : LimitKey → PendingOp
  refund : LimitKey → (amount : Number) → PendingOp
  reset : LimitKey → PendingOp

pub data ReviewStatus : Type 0 where
  pending approved rejected : ReviewStatus

-- The two decisions of `decide`.
pub data Decision : Type 0 where
  approve reject : Decision

pub record Review : Type 0 where
  pub id : String
  pub op : PendingOp
  pub reason : String
  pub initiator : String
  pub status : ReviewStatus
  pub created_at : String
  pub decided_by : Option String
  pub decided_at : Option String

abbrev pub ReviewStore : Type 0
ReviewStore = Dict Review

abbrev pub status_text : ReviewStatus → String
status_text pending = "pending"
status_text approved = "approved"
status_text rejected = "rejected"

abbrev pub status_of : Decision → ReviewStatus
status_of approve = approved
status_of reject = rejected

abbrev pub is_pending : ReviewStatus → Bool
is_pending pending = true
is_pending _ = false

abbrev pub new_review : String → PendingOp → String → String → String → Review
new_review id op initiator reason now = record {
  id = id;
  op = op;
  reason = reason;
  initiator = initiator;
  status = pending;
  created_at = now;
  decided_by = none;
  decided_at = none;
}

unfoldable pub create :
    String → PendingOp → String → String → String → ReviewStore → Review × ReviewStore
create id op initiator reason now store =
    let r = new_review id op initiator reason now in (r, Dict.put id r store)

unfoldable pub list_pending : ReviewStore → List Review
list_pending store = keep (λ r. is_pending r.status) (Dict.values store)

pub data Decided : Type 0 where
  decided : Review → Decided
  refused : (status : ℕ) → (error : String) → Decided

abbrev pub with_decision : Review → String → Decision → String → Review
with_decision r approver decision now = record r {
  status = status_of decision;
  decided_by = some approver;
  decided_at = some now;
}

unfoldable pub decide_found :
    Review → String → String → Decision → String → ReviewStore → Decided × ReviewStore
decide_found r id approver decision now store =
    if is_pending r.status
    then if r.initiator == approver
      then (refused 403 "the initiator may not approve their own change", store)
      else (
        decided (with_decision r approver decision now),
        Dict.put id (with_decision r approver decision now) store,
      )
    else (refused 409 (template ("review already " ∷ status_text r.status ∷ [])), store)

unfoldable pub decide : String → String → Decision → String → ReviewStore → Decided × ReviewStore
unfolding decide_found
decide id approver decision now store = elim (Dict.get id store) [
  | none ↦ (refused 404 "review not found", store)
  | some r ↦ decide_found r id approver decision now store
]
