-- ===== src/Routes/Logging.antt =====
-- What each route adds to the action log: entries that name the user who made the request, and, for
-- a reviewed change, a pair of two different people.
use mathlib.Core.List.{append-nil}
use regional_rate_limiter.Prelude.{
  ◌+◌, ◌++◌, String, Option, none, some, List, [], All, ◌≡◌, refl, sym, ◌∙◌, ap, inl, inr,
  Bool-cases,
}
use regional_rate_limiter.Js.{Runtime, Fields}
use regional_rate_limiter.Rbac.{User, review_approve, authorize}
use regional_rate_limiter.Validation.{LimitKey, ServiceView}
use regional_rate_limiter.Rpc.{Thrown, rpc_error, other_error}
use regional_rate_limiter.Reviews.{Review, Decision, approve, Decided, decided, refused, decide}
use regional_rate_limiter.Reviews.Lifecycle.{decide_iff, outcome_lem}
use regional_rate_limiter.ActionLog.{Details, ActionLogEntry}
use regional_rate_limiter.World.{World, Exec, pure, ◌>>=◌}
use regional_rate_limiter.World.Grows.{quiet, Grows-pure, Grows-bind}
use regional_rate_limiter.World.Logs.{Logs, IsLogged, logs_rules}
use regional_rate_limiter.Operations.{entry}
use regional_rate_limiter.Operations.Logging.{
  create_limit-Logs, update_limit-Logs, delete_limit-Logs, refund_amount-Logs, reset_window-Logs,
  execute_pending_op-Logs,
}
use regional_rate_limiter.Routes.Attributed.{IsOwn, IsApproved, guard-Logs, route_rules}
use regional_rate_limiter.Routes.{Response, AppDeps, guard, op_context, decide_review, readings_of}
use regional_rate_limiter.Routes.Limits.{
  list_limits_route, resolve_limit_route, create_limit_route, update_limit_route,
  delete_limit_route, resolve_key, unconfigured,
}
use regional_rate_limiter.Routes.Audit.{list_audit_route, config_audit_route}
use regional_rate_limiter.Routes.Ops.{refund_route, reset_route, usage_route}
use regional_rate_limiter.Routes.Reviewing.{
  list_reviews_route, approve_route, reject_route, apply_decision, report_rejection,
}
use regional_rate_limiter.Routes.Services.{
  list_services_route, get_service_route, create_service_route, edit_service_route, service_entry,
}

module _ {S : Type 0} (rt : Runtime) (deps : AppDeps S) (user : User) where
  abbrev Ok : Exec S Response → Type 0
  Ok m = Logs (IsOwn user) m

  direct :
      (action : String) (key : LimitKey) (d : Details) (id : Option String)
      → IsLogged (IsOwn user) (entry (op_context user) action key d id)
  direct action key d id n time = (refl, refl, refl)

  pub create_limit_route-Logs : (body : Fields) → Ok (create_limit_route rt deps user body)
  unfolding create_limit_route
  create_limit_route-Logs body = search (route_rules, create_limit-Logs, direct) depth 8

  pub update_limit_route-Logs : (body : Fields) → Ok (update_limit_route rt deps user body)
  unfolding update_limit_route
  update_limit_route-Logs body = search (route_rules, update_limit-Logs, direct) depth 8

  pub delete_limit_route-Logs : (body : Fields) → Ok (delete_limit_route rt deps user body)
  unfolding delete_limit_route
  delete_limit_route-Logs body = search (route_rules, delete_limit-Logs, direct) depth 8

  pub refund_route-Logs : (body : Fields) → Ok (refund_route rt deps user body)
  unfolding refund_route
  refund_route-Logs body = search (route_rules, refund_amount-Logs, direct) depth 9

  pub reset_route-Logs : (body : Fields) → Ok (reset_route rt deps user body)
  unfolding reset_route
  reset_route-Logs body = search (route_rules, reset_window-Logs, direct) depth 8

  pub usage_route-Logs : (query : Fields) → Ok (usage_route rt deps user query)
  unfolding usage_route
  usage_route-Logs query = search route_rules depth 9

  pub list_limits_route-Logs : (query : Fields) → Ok (list_limits_route rt deps user query)
  unfolding list_limits_route
  list_limits_route-Logs query = search route_rules depth 8

  unconfigured-Logs : (key : LimitKey) (e : Thrown) → Ok (unconfigured rt deps user key e)
  unfolding unconfigured
  unconfigured-Logs key (rpc_error e) = search logs_rules
  unconfigured-Logs key (other_error m) = search logs_rules

  resolve_key-Logs : (key : LimitKey) → Ok (resolve_key rt deps user key)
  unfolding resolve_key
  resolve_key-Logs key = search logs_rules

  pub resolve_limit_route-Logs : (query : Fields) → Ok (resolve_limit_route rt deps user query)
  unfolding resolve_limit_route
  resolve_limit_route-Logs query = search (route_rules, resolve_key-Logs, unconfigured-Logs)

  pub list_audit_route-Logs : (query : Fields) → Ok (list_audit_route rt deps user query)
  unfolding list_audit_route
  list_audit_route-Logs query = search route_rules depth 9

  pub config_audit_route-Logs :
      (id : String) (query : Fields) → Ok (config_audit_route rt deps user id query)
  unfolding config_audit_route
  config_audit_route-Logs id query = search route_rules depth 9

  pub list_services_route-Logs : (query : Fields) → Ok (list_services_route rt deps user query)
  unfolding list_services_route
  list_services_route-Logs query = search route_rules depth 8

  pub get_service_route-Logs : (name : String) → Ok (get_service_route rt deps user name)
  unfolding get_service_route
  get_service_route-Logs name = search route_rules depth 8

  service-IsLogged :
      (action : String) (s : ServiceView)
      → IsLogged (IsOwn user) (service_entry user.email action s)
  service-IsLogged action s n time = (refl, refl, refl)

  pub create_service_route-Logs : (body : Fields) → Ok (create_service_route rt deps user body)
  unfolding create_service_route
  create_service_route-Logs body = search (route_rules, service-IsLogged) depth 8

  pub edit_service_route-Logs :
      (name : String) (body : Fields) → Ok (edit_service_route rt deps user name body)
  unfolding edit_service_route
  edit_service_route-Logs name body = search (route_rules, service-IsLogged) depth 8

  pub list_reviews_route-Logs : Ok (list_reviews_route rt deps user)
  unfolding list_reviews_route
  list_reviews_route-Logs = guard-Logs deps user _ _ _ (quiet _ (λ w. refl))

  module _ (id : String) (w : World S) where
    abbrev Approves : ActionLogEntry → Type 0
    Approves = IsApproved w.reviews id user

    -- What follows a decision logs the author of the review that is stored, since `decide` refuses
    -- the author.
    apply_decision-Logs :
        (d : Decided) (now : String)
        → (decide id user.email approve now w.reviews).0 ≡ d
        → Logs Approves (apply_decision rt deps user d)
    unfolding apply_decision
    apply_decision-Logs (refused status e) now h = Grows-pure _
    apply_decision-Logs (decided r) now h =
        let d = (decide_iff id user.email approve now w.reviews r).0 h in
        Grows-bind _ _
          (execute_pending_op-Logs rt deps.backends _
            (λ action key details other n time. (
              d.before,
              d.found,
              d.open_review,
              d.other,
              refl,
              ap (λ (x : Review). some x.initiator)
                  (d.result ∙ sym (outcome_lem d.before user.email approve now)),
              refl,
            ))
            r.op)
          (λ a. Grows-pure _)

    pub approve_route-Logs :
        (new : List ActionLogEntry) × ((approve_route rt deps user id w).1.log.entries
          ≡ w.log.entries ++ new)
        × All Approves new
    unfolding approve_route guard ◌>>=◌ decide_review pure
    approve_route-Logs = elim (Bool-cases (authorize user review_approve none deps.policy).ok) [
      | inl may ↦
          let now = rt.now_iso w.readings in
          let (d, store) = decide id user.email approve now w.reviews in
          rw may (
            (apply_decision-Logs d now refl).at
              (record w { reviews = store; readings = w.readings + readings_of d }))
      | inr barred ↦ rw barred ([], sym (append-nil w.log.entries), tt)
    ]

  report_rejection-Logs : (d : Decided) → Ok (report_rejection rt deps user d)
  unfolding report_rejection
  report_rejection-Logs (refused status e) = Grows-pure _
  report_rejection-Logs (decided r) = Grows-pure _

  decide_review-Logs :
      (id approver : String) (decision : Decision)
      → Logs (IsOwn user) (decide_review {S = S} rt id approver decision)
  unfolding decide_review
  decide_review-Logs id approver decision = quiet _ (λ w. refl)

  pub reject_route-Logs : (id : String) → Ok (reject_route rt deps user id)
  unfolding reject_route
  reject_route-Logs id =
      guard-Logs deps user _ _ _ (Grows-bind _ _ (decide_review-Logs id _ _) report_rejection-Logs)
