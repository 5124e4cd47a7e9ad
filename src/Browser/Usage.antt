-- ===== src/Browser/Usage.antt =====
-- quotaui/frontend/src/pages/LiveUsage.tsx: the usage of a key, and manual refunds and resets. What a
-- person answers to a prompt is an argument of the handler.
use regional_rate_limiter.Prelude.{
  String, Bool, true, false, ◌&&◌, Option, none, some, [], ◌∷◌, ◌==◌, if◌then◌else◌,
}
use regional_rate_limiter.Prelude.Int.{pos}
use regional_rate_limiter.Js.{Runtime, int, less, template}
use regional_rate_limiter.Rbac.Mirror.{op_refund, op_reset}
use regional_rate_limiter.Validation.{LimitKey}
use regional_rate_limiter.Rpc.{UsageView}
use regional_rate_limiter.Reviews.{Review}
use regional_rate_limiter.Routes.{Payload, usage_body}
use regional_rate_limiter.Browser.{Server, Tab, on_answer, PageError, pending_of}
use regional_rate_limiter.Browser.Api.{fetch_usage, post_refund, post_reset}
use regional_rate_limiter.Browser.Session.{Provider, can}

pub record UsagePage : Type 0 where
  pub key : LimitKey  -- the three fields of the form
  pub usage : Option UsageView
  pub error : Option PageError
  pub notice : Option String

-- An answer that is a usage, as the types of the source say.
abbrev pub usage_of : Payload → Option UsageView
usage_of (usage_body u) = some u
usage_of _ = none

abbrev fresh : UsagePage → UsagePage
fresh p = record p { error = none; notice = none }

-- `${what} requires two-person review: ${res.review.reason}`
abbrev pub held_notice : String → Review → UsagePage → UsagePage
held_notice what r p = record p {
  notice = some (template (what ∷ " requires two-person review: " ∷ r.reason ∷ []));
}

module _ {W : Type 0} (rt : Runtime) (server : Server W) where
  -- `lookup`
  unfoldable pub lookup : UsagePage → Tab W → UsagePage × Tab W
  lookup p t =
      let (a, t') = fetch_usage rt server p.key t in
      (
        on_answer a (λ body. record (fresh p) { usage = usage_of body })
            (λ e. record (fresh p) { error = some e; usage = none }),
        t',
      )

  abbrev pub after_refund : UsagePage → Option Review → Tab W → UsagePage × Tab W
  after_refund p none t = lookup p t
  after_refund p (some r) t = (held_notice "Refund" r p, t)

  -- `doRefund`, with the text of the prompt
  unfoldable pub do_refund : Option String → UsagePage → Tab W → UsagePage × Tab W
  do_refund none p t = (p, t)
  do_refund (some amount) p t =
      if amount == ""
      then (p, t)
      else (let (a, t') = post_refund rt server p.key (rt.to_number amount) t in
          on_answer a (λ body. after_refund (fresh p) (pending_of body) t')
            (λ e. (record (fresh p) { error = some e }, t')))

  abbrev pub after_reset : UsagePage → Payload → Option Review → UsagePage
  after_reset p body none = record p { usage = usage_of body }
  after_reset p body (some r) = held_notice "Reset" r p

  -- `doReset`, with the answer to the question
  unfoldable pub do_reset : Bool → UsagePage → Tab W → UsagePage × Tab W
  do_reset false p t = (p, t)
  do_reset true p t =
      let (a, t') = post_reset rt server p.key t in
      (
        on_answer a (λ body. after_reset (fresh p) body (pending_of body))
            (λ e. record (fresh p) { error = some e }),
        t',
      )

abbrev pub over_quota : UsagePage → Bool
over_quota p = elim p.usage [
  | none ↦ false
  | some u ↦ u.configured && less u.remaining (int (pos 0))
]

-- The buttons below a usage.
abbrev pub refund_button : Provider → UsageView → Bool
refund_button session u = can session op_refund (some u.key.service_name)

abbrev pub reset_button : Provider → UsageView → Bool
reset_button session u = can session op_reset (some u.key.service_name)
