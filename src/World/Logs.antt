-- ===== src/World/Logs.antt =====
-- What an action adds to the action log.
use regional_rate_limiter.Prelude.{ℕ, String, Option, none, some, refl}
use regional_rate_limiter.Js.{Runtime}
use regional_rate_limiter.Rpc.Backends.{Method, Message}
use regional_rate_limiter.ActionLog
use regional_rate_limiter.ActionLog.{Action, ActionLogEntry}
use regional_rate_limiter.World.{World, Exec, draw, now, append_log, call}
use regional_rate_limiter.World.Grows.{Grows, quiet, grows_rules}

-- The action adds entries to the log that satisfy `P`, after those that were there.
abbrev pub Logs : {S A : Type 0} → (ActionLogEntry → Type 0) → Exec S A → Type 0
Logs {S} P m = Grows (λ (w : World S). w.log.entries) P m

-- An entry for this action satisfies `P`, whatever its number and time.
abbrev pub IsLogged : (ActionLogEntry → Type 0) → Action → Type 0
IsLogged P e = (n : ℕ) (time : String) → P (record { seq = n; at = time; act = e })

module _ {S : Type 0} {P : ActionLogEntry → Type 0} (rt : Runtime) where
  pub Logs-draw : Logs P (draw {S = S} rt)
  unfolding draw
  Logs-draw = quiet (draw rt) (λ w. refl)

  pub Logs-now : Logs P (now {S = S} rt)
  unfolding now
  Logs-now = quiet (now rt) (λ w. refl)

  pub Logs-append_log : (e : Action) → IsLogged P e → Logs P (append_log {S = S} rt e)
  unfolding append_log ActionLog.append
  Logs-append_log e h = record { at = λ w. (_, refl, (h _ _, tt)) }

module _ {S Req Res : Type 0} {P : ActionLogEntry → Type 0} where
  pub Logs-call :
      (f : Method S Req Res) (name : String) (wrap : Req → Message) (req : Req)
      (actor : Option String)
      → Logs P (call f name wrap req actor)
  unfolding call
  Logs-call none name wrap req actor = quiet _ (λ w. refl)
  Logs-call (some f) name wrap req actor = quiet _ (λ w. refl)

pub ruleset logs_rules = (grows_rules, Logs-draw, Logs-now, Logs-append_log, Logs-call)
