-- ===== src/World/Emits.antt =====
-- What an action sends to the backends.
use regional_rate_limiter.Prelude.{String, Option, none, some, refl}
use regional_rate_limiter.Js.{Runtime}
use regional_rate_limiter.Rpc.Backends.{Method, Message, Sent}
use regional_rate_limiter.ActionLog.{Action}
use regional_rate_limiter.World.{World, Exec, draw, now, append_log, call}
use regional_rate_limiter.World.Grows.{Grows, quiet, grows_rules}

-- The action sends messages that satisfy `P` alone, after those sent before.
abbrev pub Emits : {S A : Type 0} → (Sent → Type 0) → Exec S A → Type 0
Emits {S} P m = Grows (λ (w : World S). w.sent) P m

module _ {S : Type 0} {P : Sent → Type 0} (rt : Runtime) where
  pub Emits-draw : Emits P (draw {S = S} rt)
  unfolding draw
  Emits-draw = quiet (draw rt) (λ w. refl)

  pub Emits-now : Emits P (now {S = S} rt)
  unfolding now
  Emits-now = quiet (now rt) (λ w. refl)

  pub Emits-append_log : (e : Action) → Emits P (append_log {S = S} rt e)
  unfolding append_log
  Emits-append_log e = quiet (append_log rt e) (λ w. refl)

module _ {S Req Res : Type 0} {P : Sent → Type 0} where
  pub Emits-call :
      (f : Method S Req Res) (name : String) (wrap : Req → Message) (req : Req)
      (actor : Option String)
      → P (record { message = wrap req; actor = actor })
      → Emits P (call f name wrap req actor)
  unfolding call
  Emits-call none name wrap req actor h = quiet _ (λ w. refl)
  Emits-call (some f) name wrap req actor h = record { at = λ w. (_, refl, (h, tt)) }

pub ruleset emits_rules = (grows_rules, Emits-draw, Emits-now, Emits-append_log)
