-- ===== src/Operations/Running.antt =====
-- The operations are runs of moves, whatever the backends do.
use regional_rate_limiter.Prelude.{String, Bool}
use regional_rate_limiter.Js.{Number, Runtime}
use regional_rate_limiter.Validation.{LimitKey}
use regional_rate_limiter.Rpc.Backends.{Backends}
use regional_rate_limiter.Reviews.{PendingOp, limit_update, limit_delete, refund, reset}
use regional_rate_limiter.World.Runs.{Runs, runs_rules}
use regional_rate_limiter.Operations.{
  OpContext, req_id, create_limit, update_limit, delete_limit, refund_amount, refund_consumed,
  reset_window, execute_pending_op,
}

req_id-Runs : {S : Type 0} {email : String} (rt : Runtime) → Runs rt email (req_id {S = S} rt)
unfolding req_id
req_id-Runs rt = search runs_rules

module _ {S : Type 0} {email : String} (rt : Runtime) (backends : Backends S)
    (ctx : OpContext) where
  pub create_limit-Runs :
      (key : LimitKey) (v : Number) (u : String)
      → Runs rt email (create_limit rt backends ctx key v u)
  unfolding create_limit
  create_limit-Runs key v u = search runs_rules

  pub update_limit-Runs :
      (key : LimitKey) (v : Number) (u : String) (upsert : Bool)
      → Runs rt email (update_limit rt backends ctx key v u upsert)
  unfolding update_limit
  update_limit-Runs key v u upsert = search runs_rules

  pub delete_limit-Runs :
      (key : LimitKey) (allow : Bool) → Runs rt email (delete_limit rt backends ctx key allow)
  unfolding delete_limit
  delete_limit-Runs key allow = search runs_rules

  pub refund_amount-Runs :
      (key : LimitKey) (amount : Number) → Runs rt email (refund_amount rt backends ctx key amount)
  unfolding refund_amount
  refund_amount-Runs key amount = search (runs_rules, req_id-Runs) depth 8

  refund_consumed-Runs :
      (key : LimitKey) (consumed : Number) (id : String)
      → Runs rt email (refund_consumed rt backends ctx key consumed id)
  unfolding refund_consumed
  refund_consumed-Runs key consumed id = search runs_rules

  pub reset_window-Runs : (key : LimitKey) → Runs rt email (reset_window rt backends ctx key)
  unfolding reset_window
  reset_window-Runs key = search (runs_rules, req_id-Runs, refund_consumed-Runs) depth 12

  pub execute_pending_op-Runs :
      (op : PendingOp) → Runs rt email (execute_pending_op rt backends ctx op)
  unfolding execute_pending_op
  execute_pending_op-Runs (limit_update key v u) = search (runs_rules, update_limit-Runs)
  execute_pending_op-Runs (limit_delete key) = search (runs_rules, delete_limit-Runs)
  execute_pending_op-Runs (refund key amount) = search (runs_rules, refund_amount-Runs)
  execute_pending_op-Runs (reset key) = search (runs_rules, reset_window-Runs)
