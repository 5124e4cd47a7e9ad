-- ===== src/Operations.antt =====
-- quotaui/bff/src/operations.ts: the mutating operations. Each calls a backend with the actor
-- attached and then records an action-log entry; the direct routes and the approval of a review
-- both use them.
pub mod Sends
pub mod Logging
pub mod Running
use regional_rate_limiter.Prelude.{
  String, Bool, true, false, Option, none, some, List, [], ◌∷◌, if◌then◌else◌, or_else,
}
use regional_rate_limiter.Prelude.Int.{pos}
use regional_rate_limiter.Js.{Number, int, less, max_number, Runtime, template}
use regional_rate_limiter.Validation.{LimitKey}
use regional_rate_limiter.Rpc.{
  LimitView, UsageView, Numeric, to_number, to_limit_view, to_usage_view, timestamp_to_iso,
  RawUsage,
}
use regional_rate_limiter.Rpc.Backends.{Backends, Message}
use regional_rate_limiter.Reviews.{PendingOp, limit_update, limit_delete, refund, reset}
use regional_rate_limiter.ActionLog.{
  Action, Target, Details, limit_target, no_details, limit_details, amount_details,
  refunded_details,
}
use regional_rate_limiter.World.{Exec, pure, convert, ◌>>=◌, ◌>>◌, draw, now, append_log, call}

-- `OpContext`, less the backends and the log, which are the world's.
pub record OpContext : Type 0 where
  pub actor : String
  pub initiator : Option String
  pub approver : Option String

-- The action-log entry of an operation on a limit.
abbrev pub entry : OpContext → String → LimitKey → Details → Option String → Action
entry ctx action key details request_id = record {
  actor = ctx.actor;
  action = action;
  target = limit_target key;
  details = details;
  request_id = request_id;
  initiator = ctx.initiator;
  approver = ctx.approver;
}

pub record RefundResult : Type 0 where
  pub remaining : Number
  pub limit : Number
  pub reset_at : Option String
  pub request_id : String

-- What `executePendingOp` returns.
pub data Applied : Type 0 where
  updated : LimitView → Applied
  deleted : Applied
  refunded : RefundResult → Applied
  was_reset : UsageView → Applied

-- `reqId`
unfoldable pub req_id : {S : Type 0} → Runtime → Exec S String
req_id rt = do hex ← draw rt; pure (template ("quotaui-" ∷ hex ∷ []))

module _ {S : Type 0} (rt : Runtime) (backends : Backends S) where
  unfoldable pub create_limit : OpContext → LimitKey → Number → String → Exec S LimitView
  create_limit ctx key limit_value time_unit = do
    limit ←
        call backends.create_limit "CreateLimit" Message.create_limit
          (record { key = key; limit_value = limit_value; time_unit = time_unit }) (some ctx.actor)
    append_log rt (entry ctx "limit:create" key (limit_details limit_value time_unit) none)
    pure (to_limit_view rt limit none)

  unfoldable pub update_limit : OpContext → LimitKey → Number → String → Bool → Exec S LimitView
  update_limit ctx key limit_value time_unit create_if_absent = do
    limit ←
        call backends.update_limit "UpdateLimit" Message.update_limit
          (record {
            key = key;
            limit_value = limit_value;
            time_unit = time_unit;
            create_if_absent = create_if_absent;
          })
          (some ctx.actor)
    append_log rt (entry ctx "limit:update" key (limit_details limit_value time_unit) none)
    pure (to_limit_view rt limit none)

  unfoldable pub delete_limit : OpContext → LimitKey → Bool → Exec S (Unit {0})
  delete_limit ctx key allow_missing = do
    call backends.delete_limit "DeleteLimit" Message.delete_limit
        (record { key = key; allow_missing = allow_missing }) (some ctx.actor)
    append_log rt (entry ctx "limit:delete" key no_details none)

  unfoldable pub refund_amount : OpContext → LimitKey → Number → Exec S RefundResult
  unfolding req_id
  refund_amount ctx key amount = do
    request_id ← req_id rt
    res ←
        call backends.refund "Refund" Message.refund
          (record { key = key; amount = amount; request_id = request_id }) (some ctx.actor)
    append_log rt (entry ctx "op:refund" key (amount_details amount) (some request_id))
    reset_at ← convert (timestamp_to_iso rt res.reset_at)
    pure (record {
      remaining = to_number rt res.remaining;
      limit = to_number rt res.limit;
      reset_at = reset_at;
      request_id = request_id;
    })

  -- The refund inside a reset, made only if something was consumed.
  unfoldable pub refund_consumed : OpContext → LimitKey → Number → String → Exec S (Unit {0})
  refund_consumed ctx key consumed request_id =
      if less (int (pos 0)) consumed
      then (call backends.refund "Refund" Message.refund
            (record { key = key; amount = consumed; request_id = request_id }) (some ctx.actor)
          >>= λ _. pure tt)
      else pure tt

  unfoldable pub reset_window : OpContext → LimitKey → Exec S UsageView
  unfolding req_id refund_consumed
  reset_window ctx key = do
    fetched_at ← now rt
    usage ← call backends.get_usage "GetUsage" Message.get_usage key none
    let consumed = to_number rt usage.consumed
    request_id ← req_id rt
    refund_consumed ctx key consumed request_id
    append_log rt (
        entry ctx "op:reset" key (refunded_details (max_number consumed (int (pos 0))))
          (some request_id))
    after ← call backends.get_usage "GetUsage" Message.get_usage key none
    convert (to_usage_view rt key after fetched_at)

  unfoldable pub execute_pending_op : OpContext → PendingOp → Exec S Applied
  execute_pending_op ctx (limit_update key limit_value time_unit) = do
    limit ← update_limit ctx key limit_value time_unit true
    pure (updated limit)
  execute_pending_op ctx (limit_delete key) = do delete_limit ctx key false; pure deleted
  execute_pending_op ctx (refund key amount) = do
    res ← refund_amount ctx key amount
    pure (refunded res)
  execute_pending_op ctx (reset key) = do usage ← reset_window ctx key; pure (was_reset usage)
