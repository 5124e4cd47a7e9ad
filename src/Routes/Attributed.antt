-- ===== src/Routes/Attributed.antt =====
-- Which entries a user's request may leave in the action log, and the rules for the guards of the
-- routes.
use regional_rate_limiter.Prelude.{String, Option, none, some, ◌≡◌, ◌≢◌, refl}
use regional_rate_limiter.Js.{Runtime}
use regional_rate_limiter.Rbac.{User, Capability}
use regional_rate_limiter.Validation.{Validated, valid, invalid}
use regional_rate_limiter.Prelude.Dict
use regional_rate_limiter.Reviews.{PendingOp, Review, ReviewStore, pending}
use regional_rate_limiter.Reviews.Policy.{review_reason}
use regional_rate_limiter.ActionLog.{ActionLogEntry}
use regional_rate_limiter.World.{Exec}
use regional_rate_limiter.World.Grows.{quiet, Grows-pure}
use regional_rate_limiter.World.Logs.{Logs, IsLogged, logs_rules}
use regional_rate_limiter.Routes.{
  Response, AppDeps, guard, with_valid, with_review, reviewed, file_review,
}

-- The entry of an action that the user took alone.
abbrev pub IsOwn : User → ActionLogEntry → Type 0
IsOwn user e = (e.actor ≡ user.email) × (e.initiator ≡ none) × (e.approver ≡ none)

-- The entry of a change that the user applied by approving the review of this id: the review was
-- pending, somebody else had filed it, and the entry names both.
abbrev pub IsApproved : ReviewStore → String → User → ActionLogEntry → Type 0
IsApproved store id user e =
    (b : Review) × (Dict.get id store ≡ some b)
    × (b.status ≡ pending)
    × (b.initiator ≢ user.email)
    × (e.actor ≡ user.email)
    × (e.initiator ≡ some b.initiator)
    × (e.approver ≡ some user.email)

module _ {S : Type 0} {P : ActionLogEntry → Type 0} where
  pub guard-Logs :
      (deps : AppDeps S) (user : User) (cap : Capability) (service : Option String)
      (rest : Exec S Response)
      → Logs P rest
      → Logs P (guard deps user cap service rest)
  unfolding guard
  guard-Logs deps user cap service rest h = search logs_rules

  pub with_valid-Logs :
      {A : Type 0} (v : Validated A) (rest : A → Exec S Response)
      → ((a : A) → Logs P (rest a))
      → Logs P (with_valid v rest)
  unfolding with_valid
  with_valid-Logs (invalid errors) rest h = Grows-pure _
  with_valid-Logs (valid a) rest h = h a

module _ {S : Type 0} {P : ActionLogEntry → Type 0} (rt : Runtime) where
  file_review-Logs :
      (op : PendingOp) (initiator reason : String)
      → Logs P (file_review {S = S} rt op initiator reason)
  unfolding file_review
  file_review-Logs op initiator reason = quiet _ (λ w. refl)

  reviewed-Logs :
      (op : PendingOp) (user : User) (reason : Option String) (rest : Exec S Response)
      → Logs P rest
      → Logs P (reviewed rt op user reason rest)
  reviewed-Logs op user none rest h = h
  reviewed-Logs op user (some reason) rest h = search (logs_rules, file_review-Logs)

  pub with_review-Logs :
      (deps : AppDeps S) (user : User) (op : PendingOp) (rest : Exec S Response)
      → Logs P rest
      → Logs P (with_review rt deps user op rest)
  unfolding with_review
  with_review-Logs deps user op rest h =
      reviewed-Logs op user (review_reason rt op deps.review_policy) rest h

pub ruleset route_rules = (logs_rules, guard-Logs, with_valid-Logs, with_review-Logs)
