-- ===== src/Reviews/Policy.antt =====
-- quotaui/bff/src/policy.ts: when a change needs a second person.
use regional_rate_limiter.Prelude.{
  String, Bool, true, Option, none, some, [], ◌∷◌, ◌≡◌, refl, ◌↔◌, arith, ◌==◌, ◌&&◌, eq_iff,
  if◌then◌else◌,
}
use regional_rate_limiter.Prelude.Int.{pos}
use regional_rate_limiter.Js.{Number, int, less, Runtime, template}
use regional_rate_limiter.Validation.{LimitKey}
use regional_rate_limiter.Reviews.{PendingOp, limit_update, limit_delete, refund, reset}

pub record ReviewPolicy : Type 0 where
  pub review_default_changes : Bool
  pub review_window_resets : Bool
  pub refund_review_threshold : Number

abbrev pub default_review_policy : ReviewPolicy
default_review_policy = record {
  review_default_changes = true;
  review_window_resets = true;
  refund_review_threshold = int (pos 100_000);
}

-- "(affects all customers without an override)" and the rest of the first reason.
abbrev default_reason : LimitKey → String
default_reason k = template (
    "changes a '*' default for " ∷ k.service_name ∷ "/" ∷ k.rate_limit_id
    ∷ " (affects all customers without an override)" ∷ [])

abbrev change_reason : LimitKey → ReviewPolicy → Option String
change_reason k policy =
    if policy.review_default_changes && k.customer_id == "*" then some (default_reason k) else none

-- `null` is `none`; no reason is the empty text.
unfoldable pub review_reason : Runtime → PendingOp → ReviewPolicy → Option String
review_reason rt (limit_update k value unit) policy = change_reason k policy
review_reason rt (limit_delete k) policy = change_reason k policy
review_reason rt (reset k) policy =
    if policy.review_window_resets then some "resets a customer's window" else none
review_reason rt (refund k amount) policy =
    if less policy.refund_review_threshold amount
    then some (
        template (
          "large refund ("
          ∷ rt.number_text amount
          ∷ " > "
          ∷ rt.number_text policy.refund_review_threshold
          ∷ ")"
          ∷ []))
    else none

-- The changes that a policy holds back for a second person.
pub data NeedsReview (p : ReviewPolicy) (op : PendingOp) : Type 0 where
  default_update :
      (k : LimitKey) (value : Number) (unit : String)
      → op ≡ limit_update k value unit
      → p.review_default_changes ≡ true
      → k.customer_id ≡ "*"
      → NeedsReview p op
  default_delete :
      (k : LimitKey)
      → op ≡ limit_delete k
      → p.review_default_changes ≡ true
      → k.customer_id ≡ "*"
      → NeedsReview p op
  window_reset : (k : LimitKey) → op ≡ reset k → p.review_window_resets ≡ true → NeedsReview p op
  large_refund :
      (k : LimitKey) (amount : Number)
      → op ≡ refund k amount
      → less p.refund_review_threshold amount ≡ true
      → NeedsReview p op

change_test :
    (k : LimitKey) (p : ReviewPolicy) (r : String)
    → change_reason k p ≡ some r
    → (p.review_default_changes ≡ true) × (k.customer_id ≡ "*")
change_test k p r h = ground (arith, eq_iff k.customer_id "*")

change_some :
    (k : LimitKey) (p : ReviewPolicy)
    → p.review_default_changes ≡ true
    → k.customer_id ≡ "*"
    → (r : String) × (change_reason k p ≡ some r)
change_some k p on star = (default_reason k, ground (arith, eq_iff k.customer_id "*"))

module _ (rt : Runtime) (p : ReviewPolicy) where
  review_sound : (op : PendingOp) (r : String) → review_reason rt op p ≡ some r → NeedsReview p op
  unfolding review_reason
  review_sound (limit_update k v u) r h =
      let (on, star) = change_test k p r h in default_update k v u refl on star
  review_sound (limit_delete k) r h =
      let (on, star) = change_test k p r h in default_delete k refl on star
  review_sound (reset k) r h = window_reset k refl (ground arith)
  review_sound (refund k a) r h = large_refund k a refl (ground arith)

  review_complete :
      (op : PendingOp) → NeedsReview p op → (r : String) × (review_reason rt op p ≡ some r)
  unfolding review_reason
  review_complete op (default_update k v u e on star) = rw e (change_some k p on star)
  review_complete op (default_delete k e on star) = rw e (change_some k p on star)
  review_complete op (window_reset k e on) = rw (e, on) (_, refl)
  review_complete op (large_refund k a e on) = rw (e, on) (_, refl)

-- Under every policy, a change gets a reason for review exactly when the policy holds it back: a
-- change of a '*' default, a window reset, or a refund strictly above the threshold.
pub review_reason_iff :
    (rt : Runtime) (p : ReviewPolicy) (op : PendingOp)
    → ((r : String) × (review_reason rt op p ≡ some r)) ↔ NeedsReview p op
review_reason_iff rt p op = (λ h. review_sound rt p op h.0 h.1, review_complete rt p op)
