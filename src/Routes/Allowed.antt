-- ===== src/Routes/Allowed.antt =====
-- Which messages to the backends a user may cause, and that each route sends no others.
use regional_rate_limiter.Prelude.{
  String, Bool, true, false, Option, none, some, ◌≡◌, ◌≢◌, refl, ◌⊎◌,
}
use regional_rate_limiter.Prelude.Dict
use regional_rate_limiter.Js.{Runtime}
use regional_rate_limiter.Rbac.{
  User, Policy, Capability, limits_read, usage_read, audit_read, limit_write, limit_delete,
  service_create, service_edit, op_refund, op_reset, review_approve, authorize,
}
use regional_rate_limiter.Validation.{Validated, valid, invalid}
use regional_rate_limiter.Rpc.Backends.{Message, Sent}
use regional_rate_limiter.World.{Exec}
use regional_rate_limiter.World.Grows.{quiet, Grows-pure}
use regional_rate_limiter.World.Emits.{Emits, emits_rules}
use regional_rate_limiter.Routes.{
  Response, AppDeps, guard, with_valid, with_review, reviewed, file_review, decide_review,
}
use regional_rate_limiter.Reviews.{PendingOp, Decision, Review, ReviewStore, pending}
use regional_rate_limiter.Reviews.Policy.{review_reason}

-- The decision function permits the capability on the service.
abbrev pub May : User → Policy → Capability → Option String → Type 0
May user policy cap service = (authorize user cap service policy).ok ≡ true

-- The message bears the user's identity as its actor.
abbrev pub As : User → Option String → Type 0
As user actor = actor ≡ some user.email

-- The capability that a refund needs: that of a reset, if it is part of one.
abbrev pub refund_cap : Bool → Capability
refund_cap true = op_reset
refund_cap false = op_refund

-- The capability that a look at the usage needs: that of a reset, if it is part of one.
abbrev pub usage_cap : Bool → Capability
usage_cap true = op_reset
usage_cap false = usage_read

-- What a request of this user that approves nothing may send, message by message. A write carries
-- the user as its actor and needs the capability for it on the very service it names.
abbrev pub Allows : User → Policy → (resets : Bool) → Message → Option String → Type 0
Allows user policy resets (Message.create_limit m) actor =
    As user actor × May user policy limit_write (some m.key.service_name)
Allows user policy resets (Message.update_limit m) actor =
    As user actor × May user policy limit_write (some m.key.service_name)
Allows user policy resets (Message.delete_limit m) actor =
    As user actor × May user policy limit_delete (some m.key.service_name)
Allows user policy resets (Message.refund m) actor =
    As user actor × May user policy (refund_cap resets) (some m.key.service_name)
Allows user policy resets (Message.register_service s) actor =
    As user actor
    × (May user policy service_create (some s.service_name)
        ⊎ May user policy service_edit (some s.service_name))
Allows user policy resets (Message.get_limit m) actor =
    May user policy limits_read (some m.key.service_name)
Allows user policy resets (Message.list_limits m) actor =
    May user policy limits_read (some m.service_name)
Allows user policy resets (Message.list_audit_entries m) actor =
    May user policy audit_read (some m.service_name)
Allows user policy resets (Message.get_service name) actor = May user policy limits_read none
Allows user policy resets (Message.list_services m) actor = May user policy limits_read none
Allows user policy resets (Message.get_usage key) actor =
    May user policy (usage_cap resets) (some key.service_name)

abbrev pub IsAllowed : User → Policy → Bool → Sent → Type 0
IsAllowed user policy resets s = Allows user policy resets s.message s.actor

-- The message applies this change and no other, with the user as the actor of its writes; a reset
-- also reads the usage.
abbrev pub Applies : User → PendingOp → Message → Option String → Type 0
Applies user (PendingOp.limit_update key v u) (Message.update_limit m) actor =
    As user actor × (m.key ≡ key) × (m.limit_value ≡ v) × (m.time_unit ≡ u)
Applies user (PendingOp.limit_delete key) (Message.delete_limit m) actor =
    As user actor × (m.key ≡ key)
Applies user (PendingOp.refund key amount) (Message.refund m) actor =
    As user actor × (m.key ≡ key) × (m.amount ≡ amount)
Applies user (PendingOp.reset key) (Message.refund m) actor = As user actor × (m.key ≡ key)
Applies user (PendingOp.reset key) (Message.get_usage k) actor = k ≡ key
Applies _ _ _ _ = ⊥

-- The message applies the change of the review of this id, which is pending and somebody else's,
-- and the user may approve reviews.
abbrev pub IsReviewed : User → Policy → ReviewStore → String → Sent → Type 0
IsReviewed user policy store id s =
    (b : Review) × (Dict.get id store ≡ some b)
    × (b.status ≡ pending)
    × (b.initiator ≢ user.email)
    × May user policy review_approve none
    × Applies user b.op s.message s.actor

module _ {S : Type 0} {P : Sent → Type 0} where
  pub guard-Emits :
      (deps : AppDeps S) (user : User) (cap : Capability) (service : Option String)
      (rest : Exec S Response)
      → (May user deps.policy cap service → Emits P rest)
      → Emits P (guard deps user cap service rest)
  unfolding guard
  guard-Emits deps user cap service rest h = search (emits_rules)

  pub with_valid-Emits :
      {A : Type 0} (v : Validated A) (rest : A → Exec S Response)
      → ((a : A) → Emits P (rest a))
      → Emits P (with_valid v rest)
  unfolding with_valid
  with_valid-Emits (invalid errors) rest h = Grows-pure _
  with_valid-Emits (valid a) rest h = h a

module _ {S : Type 0} {P : Sent → Type 0} (rt : Runtime) where
  pub file_review-Emits :
      (op : PendingOp) (initiator reason : String)
      → Emits P (file_review {S = S} rt op initiator reason)
  unfolding file_review
  file_review-Emits op initiator reason = quiet _ (λ w. refl)

  pub decide_review-Emits :
      (id approver : String) (decision : Decision)
      → Emits P (decide_review {S = S} rt id approver decision)
  unfolding decide_review
  decide_review-Emits id approver decision = quiet _ (λ w. refl)

  pub reviewed-Emits :
      (op : PendingOp) (user : User) (reason : Option String) (rest : Exec S Response)
      → Emits P rest
      → Emits P (reviewed rt op user reason rest)
  reviewed-Emits op user none rest h = h
  reviewed-Emits op user (some reason) rest h = search (emits_rules, file_review-Emits)

  pub with_review-Emits :
      (deps : AppDeps S) (user : User) (op : PendingOp) (rest : Exec S Response)
      → Emits P rest
      → Emits P (with_review rt deps user op rest)
  unfolding with_review
  with_review-Emits deps user op rest h =
      reviewed-Emits op user (review_reason rt op deps.review_policy) rest h
