-- ===== src/Routes/Direct.antt =====
-- The routes of single users send no change that needs a second person.
use regional_rate_limiter.Prelude.{
  String, Bool, true, false, none, some, ◌≡◌, refl, sym, ◌∙◌, inl, inr, arith, Option-cases,
}
use regional_rate_limiter.Js.{Number, Runtime, Fields}
use regional_rate_limiter.Rbac.{
  User, limit_write, limit_delete, op_refund, op_reset, limits_read, usage_read, service_create,
  service_edit, review_approve,
}
use regional_rate_limiter.Validation.{LimitKey, ValidatedLimit, ServiceView}
use regional_rate_limiter.Rpc.{Thrown, rpc_error, other_error}
use regional_rate_limiter.Rpc.Backends.{Message, Sent, RefundRequest}
use regional_rate_limiter.Reviews.{PendingOp, Decided, decided, refused}
use regional_rate_limiter.Reviews.Policy.{
  ReviewPolicy, review_reason, NeedsReview, review_reason_iff,
}
use regional_rate_limiter.World.{Exec}
use regional_rate_limiter.World.Grows.{quiet, Grows-pure, Grows-bind, Grows-catch}
use regional_rate_limiter.World.Emits.{Emits, emits_rules, Emits-call}
use regional_rate_limiter.Operations.Sends.{
  create_limit-Emits, update_limit-Emits, delete_limit-Emits, refund_amount-Emits,
  reset_window-Emits,
}
use regional_rate_limiter.Routes.{Response, AppDeps, op_context, with_review}
use regional_rate_limiter.Routes.Allowed.{
  guard-Emits, with_valid-Emits, file_review-Emits, decide_review-Emits,
}
use regional_rate_limiter.Routes.Limits.{
  list_limits_route, resolve_limit_route, create_limit_route, update_limit_route,
  delete_limit_route, resolve_key, unconfigured,
}
use regional_rate_limiter.Routes.Audit.{list_audit_route, config_audit_route}
use regional_rate_limiter.Routes.Ops.{refund_route, reset_route, usage_route}
use regional_rate_limiter.Routes.Reviewing.{list_reviews_route, reject_route, report_rejection}
use regional_rate_limiter.Routes.Services.{
  list_services_route, get_service_route, create_service_route, edit_service_route,
}

-- The change that a refund is sent for: the refund itself, or the reset that it is part of.
abbrev refunded_for : Bool → RefundRequest → PendingOp
refunded_for true m = PendingOp.reset m.key
refunded_for false m = PendingOp.refund m.key m.amount

-- A message that one person may cause alone, by a reset or otherwise.
abbrev Passes : ReviewPolicy → (resets : Bool) → Message → Type 0
Passes p resets (Message.update_limit m) =
    ¬ NeedsReview p (PendingOp.limit_update m.key m.limit_value m.time_unit)
Passes p resets (Message.delete_limit m) = ¬ NeedsReview p (PendingOp.limit_delete m.key)
Passes p resets (Message.refund m) = ¬ NeedsReview p (refunded_for resets m)
Passes p resets m = Unit

abbrev pub IsDirect : ReviewPolicy → Bool → Sent → Type 0
IsDirect p resets s = Passes p resets s.message

no_review :
    (rt : Runtime) (p : ReviewPolicy) (op : PendingOp)
    → review_reason rt op p ≡ none
    → ¬ NeedsReview p op
no_review rt p op h needs =
    let (r, e) = (review_reason_iff rt p op).1 needs in ground (arith, sym h ∙ e)

ruleset route_rules = (emits_rules, Emits-call, guard-Emits, with_valid-Emits)

module _ {S : Type 0} (rt : Runtime) (deps : AppDeps S) (user : User) (resets : Bool) where
  abbrev Fine : Sent → Type 0
  Fine = IsDirect deps.review_policy resets

  abbrev Ok : Exec S Response → Type 0
  Ok m = Emits Fine m

  -- What follows runs only if the change needs no review.
  with_review-IsDirect :
      (op : PendingOp) (rest : Exec S Response)
      → ((¬ NeedsReview deps.review_policy op) → Ok rest)
      → Ok (with_review rt deps user op rest)
  unfolding with_review
  with_review-IsDirect op rest h = elim (Option-cases (review_reason rt op deps.review_policy)) [
    | inl alone ↦ rw (alone, with_review) (h (no_review rt deps.review_policy op alone))
    | inr (r, held) ↦ rw (held, with_review) (search (emits_rules, file_review-Emits))
  ]

  pub create_limit_route-IsDirect : (body : Fields) → Ok (create_limit_route rt deps user body)
  unfolding create_limit_route
  create_limit_route-IsDirect body = with_valid-Emits {A = ValidatedLimit} _ _ λ v.
      guard-Emits deps user limit_write _ _ λ may.
        Grows-bind _ _
          (create_limit-Emits {P = Fine} rt deps.backends (op_context user) v.key v.limit_value
            v.time_unit tt)
          (λ r. Grows-pure _)

  pub update_limit_route-IsDirect : (body : Fields) → Ok (update_limit_route rt deps user body)
  unfolding update_limit_route
  update_limit_route-IsDirect body = with_valid-Emits {A = ValidatedLimit} _ _ λ v.
      guard-Emits deps user limit_write _ _ λ may. with_review-IsDirect _ _ λ alone.
        Grows-bind _ _
          (update_limit-Emits {P = Fine} rt deps.backends (op_context user) v.key v.limit_value
            v.time_unit _ alone)
          (λ r. Grows-pure _)

  pub delete_limit_route-IsDirect : (body : Fields) → Ok (delete_limit_route rt deps user body)
  unfolding delete_limit_route
  delete_limit_route-IsDirect body = with_valid-Emits {A = LimitKey} _ _ λ key.
      guard-Emits deps user limit_delete _ _ λ may. with_review-IsDirect _ _ λ alone.
        Grows-bind _ _
          (delete_limit-Emits {P = Fine} rt deps.backends (op_context user) key _ alone)
          (λ r. Grows-pure _)

  pub list_limits_route-IsDirect : (query : Fields) → Ok (list_limits_route rt deps user query)
  unfolding list_limits_route
  list_limits_route-IsDirect query = search route_rules depth 8

  pub list_audit_route-IsDirect : (query : Fields) → Ok (list_audit_route rt deps user query)
  unfolding list_audit_route
  list_audit_route-IsDirect query = search route_rules depth 9

  pub config_audit_route-IsDirect :
      (id : String) (query : Fields) → Ok (config_audit_route rt deps user id query)
  unfolding config_audit_route
  config_audit_route-IsDirect id query = search route_rules depth 9

  pub list_services_route-IsDirect : (query : Fields) → Ok (list_services_route rt deps user query)
  unfolding list_services_route
  list_services_route-IsDirect query = search route_rules depth 8

  pub get_service_route-IsDirect : (name : String) → Ok (get_service_route rt deps user name)
  unfolding get_service_route
  get_service_route-IsDirect name = search route_rules depth 8

  pub create_service_route-IsDirect : (body : Fields) → Ok (create_service_route rt deps user body)
  unfolding create_service_route
  create_service_route-IsDirect body = with_valid-Emits {A = ServiceView} _ _ λ s.
      guard-Emits deps user service_create _ _ λ may.
        let allowed : Fine
            (record { message = Message.register_service s; actor = some user.email }) =
          tt in
        search (emits_rules, Emits-call, allowed)

  pub edit_service_route-IsDirect :
      (name : String) (body : Fields) → Ok (edit_service_route rt deps user name body)
  unfolding edit_service_route
  edit_service_route-IsDirect name body = with_valid-Emits {A = ServiceView} _ _ λ s.
      guard-Emits deps user service_edit _ _ λ may.
        let allowed : Fine
            (record { message = Message.register_service s; actor = some user.email }) =
          tt in
        search (emits_rules, Emits-call, allowed)

  unconfigured-IsDirect : (key : LimitKey) (e : Thrown) → Ok (unconfigured rt deps user key e)
  unfolding unconfigured
  unconfigured-IsDirect key (rpc_error e) = search emits_rules
  unconfigured-IsDirect key (other_error m) = search emits_rules

  resolve_key-IsDirect : (key : LimitKey) → Ok (resolve_key rt deps user key)
  unfolding resolve_key
  resolve_key-IsDirect key = search (route_rules)

  pub resolve_limit_route-IsDirect : (query : Fields) → Ok (resolve_limit_route rt deps user query)
  unfolding resolve_limit_route
  resolve_limit_route-IsDirect query = with_valid-Emits {A = LimitKey} _ _ λ key.
      guard-Emits deps user limits_read _ _
        λ may. Grows-catch _ _ (resolve_key-IsDirect key) (unconfigured-IsDirect key)

  pub usage_route-IsDirect : (query : Fields) → Ok (usage_route rt deps user query)
  unfolding usage_route
  usage_route-IsDirect query = with_valid-Emits {A = LimitKey} _ _ λ key.
      guard-Emits deps user usage_read _ _ λ may.
        let allowed : Fine (record { message = Message.get_usage key; actor = none }) = tt in
        search (emits_rules, Emits-call, allowed) depth 8

  pub list_reviews_route-IsDirect : Ok (list_reviews_route rt deps user)
  unfolding list_reviews_route
  list_reviews_route-IsDirect = guard-Emits deps user review_approve _ _ λ may. quiet _ (λ w. refl)

  report_rejection-IsDirect : (d : Decided) → Ok (report_rejection rt deps user d)
  unfolding report_rejection
  report_rejection-IsDirect (refused status e) = Grows-pure _
  report_rejection-IsDirect (decided r) = Grows-pure _

  pub reject_route-IsDirect : (id : String) → Ok (reject_route rt deps user id)
  unfolding reject_route
  reject_route-IsDirect id =
      guard-Emits deps user review_approve _ _
        λ may. Grows-bind _ _ (decide_review-Emits rt id _ _) (λ d. report_rejection-IsDirect d)

module _ {S : Type 0} (rt : Runtime) (deps : AppDeps S) (user : User) where
  pub refund_route-IsDirect :
      (body : Fields) → Emits (IsDirect deps.review_policy false) (refund_route rt deps user body)
  unfolding refund_route
  refund_route-IsDirect body = with_valid-Emits {A = LimitKey} _ _ λ key.
      with_valid-Emits {A = Number} _ _ λ amount. guard-Emits deps user op_refund _ _ λ may.
        with_review-IsDirect rt deps user false _ _ λ alone.
          Grows-bind _ _
            (refund_amount-Emits {P = IsDirect deps.review_policy false} rt deps.backends
              (op_context user) key amount (λ id. alone))
            (λ r. Grows-pure _)

  pub reset_route-IsDirect :
      (body : Fields) → Emits (IsDirect deps.review_policy true) (reset_route rt deps user body)
  unfolding reset_route
  reset_route-IsDirect body = with_valid-Emits {A = LimitKey} _ _ λ key.
      guard-Emits deps user op_reset _ _ λ may. with_review-IsDirect rt deps user true _ _ λ alone.
        Grows-bind _ _
          (reset_window-Emits {P = IsDirect deps.review_policy true} rt deps.backends
            (op_context user) key tt (λ a id. alone))
          (λ r. Grows-pure _)
