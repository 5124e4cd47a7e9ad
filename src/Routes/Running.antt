-- ===== src/Routes/Running.antt =====
-- Each route is a run of moves on behalf of its user.
use regional_rate_limiter.Prelude.{String, Option, none, some, refl}
use regional_rate_limiter.Js.{Runtime, Fields}
use regional_rate_limiter.Rbac.{User, Capability}
use regional_rate_limiter.Validation.{LimitKey, Validated, valid, invalid}
use regional_rate_limiter.Rpc.{Thrown, rpc_error, other_error}
use regional_rate_limiter.Reviews.{PendingOp, Decision, Decided, decided, refused}
use regional_rate_limiter.Reviews.Policy.{review_reason}
use regional_rate_limiter.World.{Exec}
use regional_rate_limiter.World.Runs.{
  Runs, one, still, files, decides, Runs-pure, Runs-bind, runs_rules,
}
use regional_rate_limiter.Operations.Running.{
  create_limit-Runs, update_limit-Runs, delete_limit-Runs, refund_amount-Runs, reset_window-Runs,
  execute_pending_op-Runs,
}
use regional_rate_limiter.Routes.{
  Response, AppDeps, guard, with_valid, with_review, reviewed, file_review, decide_review,
}
use regional_rate_limiter.Routes.Limits.{
  list_limits_route, resolve_limit_route, create_limit_route, update_limit_route,
  delete_limit_route, resolve_key, unconfigured,
}
use regional_rate_limiter.Routes.Audit.{list_audit_route, config_audit_route}
use regional_rate_limiter.Routes.Ops.{refund_route, reset_route, usage_route}
use regional_rate_limiter.Routes.Reviewing.{
  list_reviews_route, approve_route, reject_route, apply_decision, report_rejection,
}
use regional_rate_limiter.Routes.Services.{
  list_services_route, get_service_route, create_service_route, edit_service_route,
}

module _ {S : Type 0} {email : String} where
  pub guard-Runs :
      (rt : Runtime) (deps : AppDeps S) (user : User) (cap : Capability) (service : Option String)
      (rest : Exec S Response)
      → Runs rt email rest
      → Runs rt email (guard deps user cap service rest)
  unfolding guard
  guard-Runs rt deps user cap service rest h = search runs_rules

  with_valid-Runs :
      {A : Type 0} (rt : Runtime) (v : Validated A) (rest : A → Exec S Response)
      → ((a : A) → Runs rt email (rest a))
      → Runs rt email (with_valid v rest)
  unfolding with_valid
  with_valid-Runs rt (invalid errors) rest h = Runs-pure _
  with_valid-Runs rt (valid a) rest h = h a

  decide_review-Runs :
      (rt : Runtime) (id : String) (decision : Decision)
      → Runs rt email (decide_review {S = S} rt id email decision)
  unfolding decide_review
  decide_review-Runs rt id decision = record { at = λ w. one (decides id decision _ _ refl) }

module _ {S : Type 0} (rt : Runtime) (user : User) where
  file_review-Runs :
      (op : PendingOp) (reason : String)
      → Runs rt user.email (file_review {S = S} rt op user.email reason)
  unfolding file_review
  file_review-Runs op reason = record { at = λ w. one (files op reason _ _ refl) }

  reviewed-Runs :
      (op : PendingOp) (reason : Option String) (rest : Exec S Response)
      → Runs rt user.email rest
      → Runs rt user.email (reviewed rt op user reason rest)
  reviewed-Runs op none rest h = h
  reviewed-Runs op (some reason) rest h = search (runs_rules, file_review-Runs)

  with_review-Runs :
      (deps : AppDeps S) (op : PendingOp) (rest : Exec S Response)
      → Runs rt user.email rest
      → Runs rt user.email (with_review rt deps user op rest)
  unfolding with_review
  with_review-Runs deps op rest h = reviewed-Runs op (review_reason rt op deps.review_policy) rest h

ruleset route_rules = (runs_rules, guard-Runs, with_valid-Runs, with_review-Runs)

module _ {S : Type 0} (rt : Runtime) (deps : AppDeps S) (user : User) where
  abbrev Ok : Exec S Response → Type 0
  Ok m = Runs rt user.email m

  pub create_limit_route-Runs : (body : Fields) → Ok (create_limit_route rt deps user body)
  unfolding create_limit_route
  create_limit_route-Runs body = search (route_rules, create_limit-Runs) depth 8

  pub update_limit_route-Runs : (body : Fields) → Ok (update_limit_route rt deps user body)
  unfolding update_limit_route
  update_limit_route-Runs body = search (route_rules, update_limit-Runs) depth 8

  pub delete_limit_route-Runs : (body : Fields) → Ok (delete_limit_route rt deps user body)
  unfolding delete_limit_route
  delete_limit_route-Runs body = search (route_rules, delete_limit-Runs) depth 8

  pub refund_route-Runs : (body : Fields) → Ok (refund_route rt deps user body)
  unfolding refund_route
  refund_route-Runs body = search (route_rules, refund_amount-Runs) depth 9

  pub reset_route-Runs : (body : Fields) → Ok (reset_route rt deps user body)
  unfolding reset_route
  reset_route-Runs body = search (route_rules, reset_window-Runs) depth 8

  pub usage_route-Runs : (query : Fields) → Ok (usage_route rt deps user query)
  unfolding usage_route
  usage_route-Runs query = search route_rules depth 9

  pub list_limits_route-Runs : (query : Fields) → Ok (list_limits_route rt deps user query)
  unfolding list_limits_route
  list_limits_route-Runs query = search route_rules depth 8

  unconfigured-Runs : (key : LimitKey) (e : Thrown) → Ok (unconfigured rt deps user key e)
  unfolding unconfigured
  unconfigured-Runs key (rpc_error e) = search runs_rules
  unconfigured-Runs key (other_error m) = search runs_rules

  resolve_key-Runs : (key : LimitKey) → Ok (resolve_key rt deps user key)
  unfolding resolve_key
  resolve_key-Runs key = search runs_rules

  pub resolve_limit_route-Runs : (query : Fields) → Ok (resolve_limit_route rt deps user query)
  unfolding resolve_limit_route
  resolve_limit_route-Runs query = search (route_rules, resolve_key-Runs, unconfigured-Runs)

  pub list_audit_route-Runs : (query : Fields) → Ok (list_audit_route rt deps user query)
  unfolding list_audit_route
  list_audit_route-Runs query = search route_rules depth 9

  pub config_audit_route-Runs :
      (id : String) (query : Fields) → Ok (config_audit_route rt deps user id query)
  unfolding config_audit_route
  config_audit_route-Runs id query = search route_rules depth 9

  pub list_services_route-Runs : (query : Fields) → Ok (list_services_route rt deps user query)
  unfolding list_services_route
  list_services_route-Runs query = search route_rules depth 8

  pub get_service_route-Runs : (name : String) → Ok (get_service_route rt deps user name)
  unfolding get_service_route
  get_service_route-Runs name = search route_rules depth 8

  pub create_service_route-Runs : (body : Fields) → Ok (create_service_route rt deps user body)
  unfolding create_service_route
  create_service_route-Runs body = search route_rules depth 8

  pub edit_service_route-Runs :
      (name : String) (body : Fields) → Ok (edit_service_route rt deps user name body)
  unfolding edit_service_route
  edit_service_route-Runs name body = search route_rules depth 8

  pub list_reviews_route-Runs : Ok (list_reviews_route rt deps user)
  unfolding list_reviews_route
  list_reviews_route-Runs = guard-Runs rt deps user _ _ _ (still _ (λ w. refl))

  apply_decision-Runs : (d : Decided) → Ok (apply_decision rt deps user d)
  unfolding apply_decision
  apply_decision-Runs (refused status e) = Runs-pure _
  apply_decision-Runs (decided r) = search (runs_rules, execute_pending_op-Runs)

  pub approve_route-Runs : (id : String) → Ok (approve_route rt deps user id)
  unfolding approve_route
  approve_route-Runs id =
      guard-Runs rt deps user _ _ _ (Runs-bind _ _ (decide_review-Runs rt id _) apply_decision-Runs)

  report_rejection-Runs : (d : Decided) → Ok (report_rejection rt deps user d)
  unfolding report_rejection
  report_rejection-Runs (refused status e) = Runs-pure _
  report_rejection-Runs (decided r) = Runs-pure _

  pub reject_route-Runs : (id : String) → Ok (reject_route rt deps user id)
  unfolding reject_route
  reject_route-Runs id =
      guard-Runs rt deps user _ _ _
        (Runs-bind _ _ (decide_review-Runs rt id _) report_rejection-Runs)
