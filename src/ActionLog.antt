-- ===== src/ActionLog.antt =====
-- quotaui/bff/src/actionlog.ts: the append-only log of what people did through the server.
-- The time that `append` reads is an argument. `target` and `details` are records of texts and
-- numbers in the source; here a target is the key or the service that was acted on.
pub mod Order
use regional_rate_limiter.Prelude.{
  ℕ, zero, suc, ◌+◌, ◌-◌, String, Bool, true, false, Option, none, some, List, [], ◌∷◌, ◌++◌, ◌==◌,
  reverse, take, length, keep, if◌then◌else◌,
}
use regional_rate_limiter.Prelude.Int.{ℤ, pos, negsuc}
use regional_rate_limiter.Js.{Number}
use regional_rate_limiter.Validation.{LimitKey}

pub data Target : Type 0 where
  limit_target : LimitKey → Target
  service_target : String → Target

pub data Details : Type 0 where
  no_details : Details
  limit_details : (limit_value : Number) → (time_unit : String) → Details
  amount_details : (amount : Number) → Details
  refunded_details : (refunded : Number) → Details
  service_details : (display_name owner : String) → Details

-- `Omit<ActionLogEntry, "seq" | "at">`
pub record Action : Type 0 where
  pub actor : String
  pub action : String
  pub target : Target
  pub details : Details
  pub request_id : Option String
  pub initiator : Option String
  pub approver : Option String

pub record ActionLogEntry : Type 0 where
  pub seq : ℕ
  pub at : String
  pub act : Action
  pub open act use *

pub record ActionLog : Type 0 where
  pub entries : List ActionLogEntry
  pub seq : ℕ

abbrev pub empty : ActionLog
empty = record { entries = []; seq = 0 }

unfoldable pub append : String → Action → ActionLog → ActionLogEntry × ActionLog
append now e log =
    let entry : ActionLogEntry = record { seq = log.seq + 1; at = now; act = e } in
    (entry, record { entries = log.entries ++ entry ∷ []; seq = log.seq + 1 })

-- `xs.slice(0, n)`: a negative `n` counts from the end.
abbrev pub slice {ℓ} : {A : Type ℓ} → ℤ → List A → List A
slice (pos n) xs = take n xs
slice (negsuc n) xs = take (length xs - suc n) xs

-- `if (opts.actor)`: an empty text does not filter.
abbrev pub by_actor : Option String → List ActionLogEntry → List ActionLogEntry
by_actor none out = out
by_actor (some who) out = if who == "" then out else keep (λ e. e.actor == who) out

abbrev pub cut : Option ℤ → List ActionLogEntry → List ActionLogEntry
cut none out = out
cut (some n) out = slice n out

unfoldable pub list : Option String → Option ℤ → ActionLog → List ActionLogEntry
list actor limit log = cut limit (by_actor actor (reverse log.entries))
