-- ===== src/Routes/Effects.antt =====
-- Each route sends only what its user may cause.
use mathlib.Core.List.{append-nil}
use regional_rate_limiter.Prelude.{
  ◌+◌, ◌++◌, String, Bool, true, false, Option, none, some, List, [], All, ◌≡◌, refl, sym, ◌∙◌, ap,
  subst, inl, inr, Bool-cases,
}
use regional_rate_limiter.Js.{Number, Runtime, Fields}
use regional_rate_limiter.Rbac.{
  User, usage_read, limits_read, service_create, service_edit, limit_write, limit_delete, op_refund,
  op_reset, review_approve, authorize,
}
use regional_rate_limiter.Validation.{LimitKey, ValidatedLimit, ServiceView}
use regional_rate_limiter.Rpc.Backends.{Message, Sent}
use regional_rate_limiter.Rpc.{Thrown, rpc_error, other_error}
use regional_rate_limiter.Reviews.{PendingOp, Decided, decided, refused, decide, approve, Review}
use regional_rate_limiter.Reviews.Lifecycle.{decide_iff, outcome_lem}
use regional_rate_limiter.World.{World, Exec, pure, ◌>>=◌}
use regional_rate_limiter.World.Grows.{quiet, Grows-pure, Grows-bind, Grows-catch}
use regional_rate_limiter.World.Emits.{Emits, emits_rules, Emits-call}
use regional_rate_limiter.Operations.{execute_pending_op}
use regional_rate_limiter.Operations.Sends.{
  create_limit-Emits, update_limit-Emits, delete_limit-Emits, refund_amount-Emits,
  reset_window-Emits,
}
use regional_rate_limiter.Routes.{Response, AppDeps, guard, op_context, decide_review, readings_of}
use regional_rate_limiter.Routes.Allowed.{
  IsAllowed, IsReviewed, Applies, May, guard-Emits, with_valid-Emits, with_review-Emits,
  decide_review-Emits,
}
use regional_rate_limiter.Routes.Limits.{
  list_limits_route, resolve_limit_route, create_limit_route, update_limit_route,
  delete_limit_route, resolve_key, unconfigured,
}
use regional_rate_limiter.Routes.Audit.{list_audit_route, config_audit_route}
use regional_rate_limiter.Routes.Ops.{refund_route, reset_route, usage_route}
use regional_rate_limiter.Routes.Reviewing.{
  list_reviews_route, approve_route, reject_route, approver_context, apply_decision,
  report_rejection,
}
use regional_rate_limiter.Routes.Services.{
  list_services_route, get_service_route, create_service_route, edit_service_route,
}

ruleset route_rules = (emits_rules, Emits-call, guard-Emits, with_valid-Emits, with_review-Emits)

module _ {S : Type 0} (rt : Runtime) (deps : AppDeps S) (user : User) (resets : Bool) where
  abbrev Fine : Sent → Type 0
  Fine = IsAllowed user deps.policy resets

  abbrev Ok : Exec S Response → Type 0
  Ok m = Emits Fine m

  pub create_limit_route-Emits : (body : Fields) → Ok (create_limit_route rt deps user body)
  unfolding create_limit_route
  create_limit_route-Emits body = with_valid-Emits {A = ValidatedLimit} _ _ λ v.
      guard-Emits deps user limit_write _ _ λ may.
        Grows-bind _ _
          (create_limit-Emits {P = Fine} rt deps.backends (op_context user) v.key v.limit_value
            v.time_unit (refl, may))
          (λ r. Grows-pure _)

  pub update_limit_route-Emits : (body : Fields) → Ok (update_limit_route rt deps user body)
  unfolding update_limit_route
  update_limit_route-Emits body = with_valid-Emits {A = ValidatedLimit} _ _ λ v.
      guard-Emits deps user limit_write _ _ λ may. with_review-Emits rt deps user _ _ (
        Grows-bind _ _
          (update_limit-Emits {P = Fine} rt deps.backends (op_context user) v.key v.limit_value
            v.time_unit _ (refl, may))
          (λ r. Grows-pure _))

  pub delete_limit_route-Emits : (body : Fields) → Ok (delete_limit_route rt deps user body)
  unfolding delete_limit_route
  delete_limit_route-Emits body = with_valid-Emits {A = LimitKey} _ _ λ key.
      guard-Emits deps user limit_delete _ _ λ may. with_review-Emits rt deps user _ _ (
        Grows-bind _ _
          (delete_limit-Emits {P = Fine} rt deps.backends (op_context user) key _ (refl, may))
          (λ r. Grows-pure _))

  pub list_limits_route-Emits : (query : Fields) → Ok (list_limits_route rt deps user query)
  unfolding list_limits_route
  list_limits_route-Emits query = search route_rules depth 8

  pub list_audit_route-Emits : (query : Fields) → Ok (list_audit_route rt deps user query)
  unfolding list_audit_route
  list_audit_route-Emits query = search route_rules depth 9

  pub config_audit_route-Emits :
      (id : String) (query : Fields) → Ok (config_audit_route rt deps user id query)
  unfolding config_audit_route
  config_audit_route-Emits id query = search route_rules depth 9

  pub list_services_route-Emits : (query : Fields) → Ok (list_services_route rt deps user query)
  unfolding list_services_route
  list_services_route-Emits query = search route_rules depth 8

  pub get_service_route-Emits : (name : String) → Ok (get_service_route rt deps user name)
  unfolding get_service_route
  get_service_route-Emits name = search route_rules depth 8

  pub create_service_route-Emits : (body : Fields) → Ok (create_service_route rt deps user body)
  unfolding create_service_route
  create_service_route-Emits body = with_valid-Emits {A = ServiceView} _ _ λ s.
      guard-Emits deps user service_create _ _ λ may.
        let allowed : Fine
            (record { message = Message.register_service s; actor = some user.email }) =
          (refl, inl may) in
        search (emits_rules, Emits-call, allowed)

  pub edit_service_route-Emits :
      (name : String) (body : Fields) → Ok (edit_service_route rt deps user name body)
  unfolding edit_service_route
  edit_service_route-Emits name body = with_valid-Emits {A = ServiceView} _ _ λ s.
      guard-Emits deps user service_edit _ _ λ may.
        let allowed : Fine
            (record { message = Message.register_service s; actor = some user.email }) =
          (refl, inr may) in
        search (emits_rules, Emits-call, allowed)

  unconfigured-Emits : (key : LimitKey) (e : Thrown) → Ok (unconfigured rt deps user key e)
  unfolding unconfigured
  unconfigured-Emits key (rpc_error e) = search emits_rules
  unconfigured-Emits key (other_error m) = search emits_rules

  resolve_key-Emits :
      (key : LimitKey)
      → May user deps.policy limits_read (some key.service_name)
      → Ok (resolve_key rt deps user key)
  unfolding resolve_key
  resolve_key-Emits key may = search (emits_rules, Emits-call)

  pub resolve_limit_route-Emits : (query : Fields) → Ok (resolve_limit_route rt deps user query)
  unfolding resolve_limit_route
  resolve_limit_route-Emits query = with_valid-Emits {A = LimitKey} _ _ λ key.
      guard-Emits deps user limits_read _ _
        λ may. Grows-catch _ _ (resolve_key-Emits key may) (unconfigured-Emits key)

  pub list_reviews_route-Emits : Ok (list_reviews_route rt deps user)
  unfolding list_reviews_route
  list_reviews_route-Emits = guard-Emits deps user review_approve _ _ λ may. quiet _ (λ w. refl)

  report_rejection-Emits : (d : Decided) → Ok (report_rejection rt deps user d)
  unfolding report_rejection
  report_rejection-Emits (refused status e) = Grows-pure _
  report_rejection-Emits (decided r) = Grows-pure _

  pub reject_route-Emits : (id : String) → Ok (reject_route rt deps user id)
  unfolding reject_route
  reject_route-Emits id =
      guard-Emits deps user review_approve _ _
        λ may. Grows-bind _ _ (decide_review-Emits rt id _ _) (λ d. report_rejection-Emits d)

module _ {S : Type 0} (rt : Runtime) (deps : AppDeps S) (user : User) where
  pub refund_route-Emits :
      (body : Fields) → Emits (IsAllowed user deps.policy false) (refund_route rt deps user body)
  unfolding refund_route
  refund_route-Emits body = with_valid-Emits {A = LimitKey} _ _ λ key.
      with_valid-Emits {A = Number} _ _ λ amount. guard-Emits deps user op_refund _ _ λ may.
        with_review-Emits rt deps user _ _ (
          Grows-bind _ _
            (refund_amount-Emits {P = IsAllowed user deps.policy false} rt deps.backends
              (op_context user) key amount (λ id. (refl, may)))
            (λ r. Grows-pure _))

  pub usage_route-Emits :
      (query : Fields) → Emits (IsAllowed user deps.policy false) (usage_route rt deps user query)
  unfolding usage_route
  usage_route-Emits query = with_valid-Emits {A = LimitKey} _ _ λ key.
      guard-Emits deps user usage_read _ _ λ may.
        let allowed : IsAllowed user deps.policy false
            (record { message = Message.get_usage key; actor = none }) =
          may in
        search (emits_rules, Emits-call, allowed) depth 8

  pub reset_route-Emits :
      (body : Fields) → Emits (IsAllowed user deps.policy true) (reset_route rt deps user body)
  unfolding reset_route
  reset_route-Emits body = with_valid-Emits {A = LimitKey} _ _ λ key.
      guard-Emits deps user op_reset _ _ λ may. with_review-Emits rt deps user _ _ (
        Grows-bind _ _
          (reset_window-Emits {P = IsAllowed user deps.policy true} rt deps.backends
            (op_context user) key may (λ a id. (refl, may)))
          (λ r. Grows-pure _))

  module _ (id : String) (w : World S) where
    abbrev Reviewed : Sent → Type 0
    Reviewed = IsReviewed user deps.policy w.reviews id

    -- Carrying a change out sends what applies it.
    execute_pending_op-Emits :
        (initiator : String) (op : PendingOp)
        → ((message : Message) (actor : Option String)
            → Applies user op message actor
            → Reviewed (record { message = message; actor = actor }))
        → Emits Reviewed
            (execute_pending_op rt deps.backends (approver_context rt deps user initiator) op)
    unfolding execute_pending_op
    execute_pending_op-Emits i (PendingOp.limit_update key v u) fits =
        Grows-bind _ _
          (update_limit-Emits {P = Reviewed} rt deps.backends _ key v u _
            (fits _ _ (refl, refl, refl, refl)))
          (λ r. Grows-pure _)
    execute_pending_op-Emits i (PendingOp.limit_delete key) fits =
        Grows-bind _ _
          (delete_limit-Emits {P = Reviewed} rt deps.backends _ key _ (fits _ _ (refl, refl)))
          (λ r. Grows-pure _)
    execute_pending_op-Emits i (PendingOp.refund key amount) fits =
        Grows-bind _ _
          (refund_amount-Emits {P = Reviewed} rt deps.backends _ key amount
            (λ id. fits _ _ (refl, refl, refl)))
          (λ r. Grows-pure _)
    execute_pending_op-Emits i (PendingOp.reset key) fits =
        Grows-bind _ _
          (reset_window-Emits {P = Reviewed} rt deps.backends _ key (fits _ _ refl)
            (λ amount id. fits _ _ (refl, refl)))
          (λ r. Grows-pure _)

    apply_decision-Emits :
        (d : Decided) (now : String)
        → May user deps.policy review_approve none
        → (decide id user.email approve now w.reviews).0 ≡ d
        → Emits Reviewed (apply_decision rt deps user d)
    unfolding apply_decision
    apply_decision-Emits (refused status e) now may h = Grows-pure _
    apply_decision-Emits (decided r) now may h =
        let d = (decide_iff id user.email approve now w.reviews r).0 h in
        let same : d.before.op ≡ r.op =
          ap (λ (x : Review). x.op) (outcome_lem d.before user.email approve now ∙ sym d.result) in
        Grows-bind _ _
          (execute_pending_op-Emits r.initiator r.op (λ message actor applies. (
            d.before,
            d.found,
            d.open_review,
            d.other,
            may,
            subst (λ op. Applies user op message actor) (sym same) applies,
          )))
          (λ a. Grows-pure _)

    pub approve_route-Emits :
        (new : List Sent) × ((approve_route rt deps user id w).1.sent ≡ w.sent ++ new)
        × All Reviewed new
    unfolding approve_route guard ◌>>=◌ decide_review pure
    approve_route-Emits = elim (Bool-cases (authorize user review_approve none deps.policy).ok) [
      | inl may ↦
          let now = rt.now_iso w.readings in
          let (d, store) = decide id user.email approve now w.reviews in
          rw may (
            (apply_decision-Emits d now may refl).at
              (record w { reviews = store; readings = w.readings + readings_of d }))
      | inr barred ↦ rw barred ([], sym (append-nil w.sent), tt)
    ]
