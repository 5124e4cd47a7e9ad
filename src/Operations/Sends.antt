-- ===== src/Operations/Sends.antt =====
-- What the operations send, for every backend: the request that the caller asked for, with the
-- caller's actor attached.
use regional_rate_limiter.Prelude.{String, Bool, Option, none, some}
use regional_rate_limiter.Js.{Number, Runtime}
use regional_rate_limiter.Validation.{LimitKey}
use regional_rate_limiter.Rpc.Backends.{Backends, Message, Sent}
use regional_rate_limiter.World.Emits.{Emits, emits_rules, Emits-call}
use regional_rate_limiter.Operations.{
  OpContext, req_id, create_limit, update_limit, delete_limit, refund_amount, refund_consumed,
  reset_window,
}

abbrev pub sent : Message → Option String → Sent
sent message actor = record { message = message; actor = actor }

-- A refund of this amount may be sent, under any request id.
abbrev pub Refunds : (Sent → Type 0) → OpContext → LimitKey → Number → Type 0
Refunds P ctx key amount =
    (id : String)
    → P (
        sent (Message.refund (record { key = key; amount = amount; request_id = id }))
          (some ctx.actor))

req_id-Emits : {S : Type 0} {P : Sent → Type 0} (rt : Runtime) → Emits P (req_id {S = S} rt)
unfolding req_id
req_id-Emits rt = search emits_rules

module _ {S : Type 0} {P : Sent → Type 0} (rt : Runtime) (backends : Backends S)
    (ctx : OpContext) where
  pub create_limit-Emits :
      (key : LimitKey) (v : Number) (u : String)
      → P (
          sent
            (Message.create_limit (record { key = key; limit_value = v; time_unit = u }))
            (some ctx.actor))
      → Emits P (create_limit rt backends ctx key v u)
  unfolding create_limit
  create_limit-Emits key v u h = search (emits_rules, Emits-call)

  pub update_limit-Emits :
      (key : LimitKey) (v : Number) (u : String) (upsert : Bool)
      → P (
          sent
            (Message.update_limit
              (record { key = key; limit_value = v; time_unit = u; create_if_absent = upsert }))
            (some ctx.actor))
      → Emits P (update_limit rt backends ctx key v u upsert)
  unfolding update_limit
  update_limit-Emits key v u upsert h = search (emits_rules, Emits-call)

  pub delete_limit-Emits :
      (key : LimitKey) (allow_missing : Bool)
      → P (
          sent
            (Message.delete_limit (record { key = key; allow_missing = allow_missing }))
            (some ctx.actor))
      → Emits P (delete_limit rt backends ctx key allow_missing)
  unfolding delete_limit
  delete_limit-Emits key allow_missing h = search (emits_rules, Emits-call)

  pub refund_amount-Emits :
      (key : LimitKey) (amount : Number)
      → Refunds P ctx key amount
      → Emits P (refund_amount rt backends ctx key amount)
  unfolding refund_amount
  refund_amount-Emits key amount h = search (emits_rules, Emits-call, req_id-Emits) depth 8

  refund_consumed-Emits :
      (key : LimitKey) (consumed : Number) (id : String)
      → Refunds P ctx key consumed
      → Emits P (refund_consumed rt backends ctx key consumed id)
  unfolding refund_consumed
  refund_consumed-Emits key consumed id h = search (emits_rules, Emits-call)

  pub reset_window-Emits :
      (key : LimitKey)
      → P (sent (Message.get_usage key) none)
      → ((amount : Number) → Refunds P ctx key amount)
      → Emits P (reset_window rt backends ctx key)
  unfolding reset_window
  reset_window-Emits key read h =
      search (emits_rules, Emits-call, req_id-Emits, refund_consumed-Emits) depth 12
