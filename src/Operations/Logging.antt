-- ===== src/Operations/Logging.antt =====
-- What the operations log, for every backend: entries that bear the identities of the context.
use regional_rate_limiter.Prelude.{String, Bool, Option}
use regional_rate_limiter.Js.{Number, Runtime}
use regional_rate_limiter.Validation.{LimitKey}
use regional_rate_limiter.Rpc.Backends.{Backends}
use regional_rate_limiter.Reviews.{PendingOp, limit_update, limit_delete, refund, reset}
use regional_rate_limiter.ActionLog.{ActionLogEntry, Details}
use regional_rate_limiter.World.Logs.{Logs, IsLogged, logs_rules}
use regional_rate_limiter.Operations.{
  OpContext, entry, req_id, create_limit, update_limit, delete_limit, refund_amount,
  refund_consumed, reset_window, execute_pending_op,
}

req_id-Logs : {S : Type 0} {P : ActionLogEntry → Type 0} (rt : Runtime) → Logs P (req_id {S = S} rt)
unfolding req_id
req_id-Logs rt = search logs_rules

module _ {S : Type 0} {P : ActionLogEntry → Type 0} (rt : Runtime) (backends : Backends S)
    (ctx : OpContext)
    (fits : (action : String) (key : LimitKey) (d : Details) (id : Option String)
      → IsLogged P (entry ctx action key d id)) where
  pub create_limit-Logs :
      (key : LimitKey) (v : Number) (u : String) → Logs P (create_limit rt backends ctx key v u)
  unfolding create_limit
  create_limit-Logs key v u = search logs_rules

  pub update_limit-Logs :
      (key : LimitKey) (v : Number) (u : String) (upsert : Bool)
      → Logs P (update_limit rt backends ctx key v u upsert)
  unfolding update_limit
  update_limit-Logs key v u upsert = search logs_rules

  pub delete_limit-Logs :
      (key : LimitKey) (allow : Bool) → Logs P (delete_limit rt backends ctx key allow)
  unfolding delete_limit
  delete_limit-Logs key allow = search logs_rules

  pub refund_amount-Logs :
      (key : LimitKey) (amount : Number) → Logs P (refund_amount rt backends ctx key amount)
  unfolding refund_amount
  refund_amount-Logs key amount = search (logs_rules, req_id-Logs) depth 8

  refund_consumed-Logs :
      (key : LimitKey) (consumed : Number) (id : String)
      → Logs P (refund_consumed rt backends ctx key consumed id)
  unfolding refund_consumed
  refund_consumed-Logs key consumed id = search logs_rules

  pub reset_window-Logs : (key : LimitKey) → Logs P (reset_window rt backends ctx key)
  unfolding reset_window
  reset_window-Logs key = search (logs_rules, req_id-Logs, refund_consumed-Logs) depth 12

  pub execute_pending_op-Logs : (op : PendingOp) → Logs P (execute_pending_op rt backends ctx op)
  unfolding execute_pending_op
  execute_pending_op-Logs (limit_update key v u) = search (logs_rules, update_limit-Logs)
  execute_pending_op-Logs (limit_delete key) = search (logs_rules, delete_limit-Logs)
  execute_pending_op-Logs (refund key amount) = search (logs_rules, refund_amount-Logs)
  execute_pending_op-Logs (reset key) = search (logs_rules, reset_window-Logs)
