-- ===== src/App/Approval.antt =====
-- The approval of a limit update, from the request to the mocked control plane.
use regional_rate_limiter.Prelude.{
  ◌+◌, String, true, Option, none, some, [], ◌∷◌, ◌++◌, ◌≡◌, ◌≢◌, refl, ap, inl, inr, eq_of_ne,
  Option-cases,
}
use regional_rate_limiter.Prelude.Dict
use regional_rate_limiter.Prelude.Dict.{get-put_same}
use regional_rate_limiter.Js.{Runtime, Number}
use regional_rate_limiter.Rbac.{User, review_approve}
use regional_rate_limiter.Validation.{LimitKey}
use regional_rate_limiter.Struct.{WireFields}
use regional_rate_limiter.Rpc.{Timestamp, RawLimit, to_limit_view}
use regional_rate_limiter.Rpc.Backends.{Reply, reply, Message, UpdateLimitRequest}
use regional_rate_limiter.Reviews.{PendingOp, Review, Decision, pending, with_decision}
use regional_rate_limiter.Reviews.Lifecycle.{outcome}
use regional_rate_limiter.ActionLog
use regional_rate_limiter.ActionLog.{Action, ActionLogEntry, limit_details, limit_target}
use regional_rate_limiter.World.{World, done, pure, ◌>>=◌, call, append_log}
use regional_rate_limiter.Operations.{entry, update_limit, execute_pending_op, updated}
use regional_rate_limiter.Routes.{AppDeps, guard, decide_review, respond, approved_body}
use regional_rate_limiter.Routes.Allowed.{May}
use regional_rate_limiter.Routes.Failing.{decide_open}
use regional_rate_limiter.Routes.Reviewing.{approve_route, apply_decision, approver_context}
use regional_rate_limiter.App.{Request, approve_review, handle, serve, settle}
use regional_rate_limiter.App.Gate.{IsFrom}
use regional_rate_limiter.App.Access.{handle-serve}
use regional_rate_limiter.Mocks.{Mocks, mock_backends}
use regional_rate_limiter.Mocks.Quotaenforcer.{map_key}
use regional_rate_limiter.Mocks.Quotamgmt
use regional_rate_limiter.Mocks.Quotamgmt.{
  Quotamgmt, StoredLimit, insert_limit, overwrite, write_audit,
}

-- What an update with `create_if_absent` leaves in the mocked control plane.
update_stores :
    (wire : Number → Number) (now_ts : Timestamp) (req : UpdateLimitRequest) (actor : String)
    (g : Quotamgmt)
    → actor ≢ ""
    → req.create_if_absent ≡ true
    → let (a, g') = Quotamgmt.update_limit wire now_ts req (some actor) g in
      (raw : RawLimit) × (l : StoredLimit) × (a ≡ reply raw)
      × (Dict.get (map_key req.key) g'.limits ≡ some l)
      × (l.limit_value ≡ wire req.limit_value)
      × (l.time_unit ≡ req.time_unit)
unfolding Quotamgmt.update_limit insert_limit overwrite write_audit
update_stores wire now_ts req actor g named upsert =
    elim (Option-cases (Dict.get (map_key req.key) g.limits)) [
      | inl e ↦
          rw (eq_of_ne actor "" named, e)
            (rw upsert (_, _, refl, get-put_same (map_key req.key) _ g.limits, refl, refl))
      | inr (l, e) ↦
          rw (eq_of_ne actor "" named, e)
            (_, _, refl, get-put_same (map_key req.key) _ g.limits, refl, refl)
    ]

module _ {S : Type 0} (rt : Runtime) (deps : AppDeps S) (user : User) where
  abbrev pub approved : Review → World S → Review
  approved b w = with_decision b user.email Decision.approve (rt.now_iso w.readings)

  abbrev pub asked : LimitKey → Number → String → UpdateLimitRequest
  asked key n unit = record {
    key = key;
    limit_value = n;
    time_unit = unit;
    create_if_absent = true;
  }

  abbrev pub act : Review → LimitKey → Number → String → Action
  act b key n unit =
      entry (approver_context rt deps user b.initiator) "limit:update" key (limit_details n unit)
        none

  abbrev pub applied : String → Review → LimitKey → Number → String → S → World S → World S
  applied id b key n unit s w = record w {
    backend = s;
    reviews = Dict.put id (approved b w) w.reviews;
    log = (ActionLog.append (rt.now_iso (w.readings + 1)) (act b key n unit) w.log).1;
    readings = w.readings + 1 + 1;
    sent =
        w.sent
        ++ record { message = Message.update_limit (asked key n unit); actor = some user.email }
          ∷ [];
  }

  pub approve_update :
      (id : String) (w : World S) (b : Review) (key : LimitKey) (n : Number) (unit : String)
      (f : UpdateLimitRequest → Option String → S → Reply RawLimit × S) (raw : RawLimit) (s : S)
      → May user deps.policy review_approve none
      → Dict.get id w.reviews ≡ some b
      → b.status ≡ pending
      → b.initiator ≢ user.email
      → b.op ≡ PendingOp.limit_update key n unit
      → deps.backends.update_limit ≡ some f
      → f (asked key n unit) (some user.email) w.backend ≡ (reply raw, s)
      → approve_route rt deps user id w ≡ (
        done (respond 200 (approved_body (approved b w) (updated (to_limit_view rt raw none)))),
        applied id b key n unit s w,
      )
  unfolding approve_route guard decide_review ◌>>=◌ apply_decision execute_pending_op update_limit
      call append_log pure
  approve_update id w b key n unit f raw s may found open_review other op method works = rw may (
      rw (decide_open id user.email (rt.now_iso w.readings) w.reviews b found open_review other)
        (rw op (rw method (rw works refl))))

module _ (rt : Runtime) (deps : AppDeps Mocks) (deliver : WireFields → WireFields)
    (wire : Number → Number) (now_ts : Timestamp)
    (mocked : deps.backends ≡ mock_backends deliver wire now_ts) (user : User) where
  -- An approval takes effect, over the mocked backends: if a limit update is pending, filed by
  -- somebody else, and a user with an e-mail who may approve reviews approves it, whatever the state of
  -- the control plane, then the answer is 200; the limit is stored with the new unit and with the new value,
  -- as the wire delivers it; the review is approved, by that user and at the time that the clock
  -- showed, and otherwise as it was; and the action log has one entry more, for the update of that
  -- key to that value and unit, with that user as its actor and approver and the author of the
  -- change as its initiator.
  pub approval_applies :
      (req : Request) (id : String) (w : World Mocks) (from : IsFrom req w user) (b : Review)
      (key : LimitKey) (n : Number) (unit : String)
      → from.route ≡ approve_review id
      → May user deps.policy review_approve none
      → user.email ≢ ""
      → Dict.get id w.reviews ≡ some b
      → b.status ≡ pending
      → b.initiator ≢ user.email
      → b.op ≡ PendingOp.limit_update key n unit
      → let (res, w') = handle rt deps req w in
        (res.status ≡ 200)
        × ((l : StoredLimit) × (Dict.get (map_key key) w'.backend.mgmt.limits ≡ some l)
            × (l.limit_value ≡ wire n)
            × (l.time_unit ≡ unit))
        × (Dict.get id w'.reviews
            ≡ some (outcome b user.email Decision.approve (rt.now_iso w.readings)))
        × ((e : ActionLogEntry) × (w'.log.entries ≡ w.log.entries ++ e ∷ [])
            × (e.act ≡ record {
              actor = user.email;
              action = "limit:update";
              target = limit_target key;
              details = limit_details n unit;
              request_id = none;
              initiator = some b.initiator;
              approver = some user.email;
            }))
  unfolding mock_backends serve settle ActionLog.append
  approval_applies req id w from b key n unit routed may named found open_review other op =
      let change = asked rt deps user key n unit in
      let (raw, l, works, there, value, its_unit) =
        update_stores wire now_ts change user.email w.backend.mgmt named refl in
      let next : Mocks = record w.backend {
        mgmt = (Quotamgmt.update_limit wire now_ts change (some user.email) w.backend.mgmt).1;
      } in
      rw (handle-serve rt deps req w user from) (
        rw routed (
          rw
            (approve_update rt deps user id w b key n unit _ raw next may found open_review other op
              (ap (λ d. d.update_limit) mocked) (ap (λ a. (a, next)) works))
            (refl, (l, there, value, its_unit), get-put_same id _ w.reviews, (_, refl, refl))))
