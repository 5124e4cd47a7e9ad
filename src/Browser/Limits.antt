-- ===== src/Browser/Limits.antt =====
-- quotaui/frontend/src/pages/LimitsBrowser.tsx: the browser of limits. A handler runs to its end
-- before the next event, and what it sets is the page's next state.
pub mod Editor
pub mod Search
pub mod Held
use regional_rate_limiter.Prelude.{
  String, Bool, true, false, not, ◌&&◌, Option, none, some, List, [], ◌∷◌, ◌==◌, keep, map,
  if◌then◌else◌,
}
use regional_rate_limiter.Prelude.Int.{pos}
use regional_rate_limiter.Js.{
  Runtime, Value, undefined, text, Number, int, Fields, field, end, template,
}
use regional_rate_limiter.Rbac.Mirror.{limit_write}
use regional_rate_limiter.Validation.{LimitKey}
use regional_rate_limiter.Rpc.{LimitView}
use regional_rate_limiter.Routes.{Payload, limits_body, resolved_body, unconfigured_body}
use regional_rate_limiter.Browser.{Server, Tab, Answer, on_answer, PageError, said}
use regional_rate_limiter.Browser.Api.{get_limits, get_effective}
use regional_rate_limiter.Browser.Session.{Provider, can}

pub data Kind : Type 0 where
  all defaults overrides : Kind

pub record LimitsPage : Type 0 where
  pub service : String
  pub customer : String
  pub rlid : String
  pub kind : Kind
  pub limits : List LimitView
  pub effective : Option Payload
  pub error : Option PageError
  pub editing : Option LimitView

-- `EMPTY`
abbrev pub empty_limit : LimitView
empty_limit = record {
  config_id = none;
  key = record { service_name = ""; customer_id = ""; rate_limit_id = "" };
  limit_value = int (pos 0);
  time_unit = "MINUTE";
  is_default = false;
}

-- `s || undefined`
abbrev pub or_undefined : String → Value
or_undefined s = if s == "" then undefined else text s

abbrev pub is_defaults : Kind → Bool
is_defaults defaults = true
is_defaults _ = false

abbrev pub search_params : LimitsPage → Fields
search_params p = field "service_name" (text p.service) (
    field "customer_id" (if is_defaults p.kind then text "*" else or_undefined p.customer)
      (field "rate_limit_id" (or_undefined p.rlid) end))

-- `res.limits`
abbrev pub limits_of : Payload → List LimitView
limits_of (limits_body ls token) = ls
limits_of _ = []

abbrev pub shown_of : Kind → List LimitView → List LimitView
shown_of overrides ls = keep (λ l. not l.is_default) ls
shown_of _ ls = ls

abbrev pub page_key : LimitsPage → LimitKey
page_key p = record { service_name = p.service; customer_id = p.customer; rate_limit_id = p.rlid }

-- `customer && customer !== "*" && rlid`
abbrev pub wants_effective : LimitsPage → Bool
wants_effective p = not (p.customer == "") && (not (p.customer == "*") && not (p.rlid == ""))

-- the `catch` of `search`
abbrev pub failed_search : {W : Type 0} → LimitsPage → Tab W → PageError → LimitsPage × Tab W
failed_search p t e = (record p { error = some e; limits = [] }, t)

module _ {W : Type 0} (rt : Runtime) (server : Server W) where
  unfoldable pub show_effective : LimitsPage → Tab W → LimitsPage × Tab W
  show_effective p t =
      if wants_effective p
      then (let (a, t') = get_effective rt server (page_key p) t in
          on_answer a (λ body. (record p { effective = some body }, t')) (failed_search p t'))
      else (record p { effective = none }, t)

  abbrev pub listed : LimitsPage → Answer → Tab W → LimitsPage × Tab W
  listed p a t =
      on_answer a
        (λ body. show_effective (record p { limits = shown_of p.kind (limits_of body) }) t)
        (failed_search p t)

  -- `search`
  unfoldable pub search : LimitsPage → Tab W → LimitsPage × Tab W
  search p t =
      if p.service == ""
      then (record p { error = some (said "pick a service") }, t)
      else (let (a, t') = get_limits rt server (search_params p) t in
          listed (record p { error = none }) a t')

-- What a row offers.
pub data RowAction : Type 0 where
  edit_button read_only : RowAction

abbrev pub row_action : Provider → LimitView → RowAction
row_action session l =
    if can session limit_write (some l.key.service_name) then edit_button else read_only

abbrev pub rows : Provider → LimitsPage → List (LimitView × RowAction)
rows session p = map (λ l. (l, row_action session l)) p.limits

-- The button for a new limit, and the form that it opens.
abbrev pub new_button : Provider → LimitsPage → Option LimitView
new_button session p =
    if can session limit_write (some p.service)
    then some (record empty_limit { key = record empty_limit.key { service_name = p.service } })
    else none

-- The `note` of an unconfigured answer, of quotaui/bff/src/routes/limits.ts.
abbrev unconfigured_note : String
unconfigured_note = "unconfigured → allow (fail-open, parent §9)"

-- The hint on the limit in force.
abbrev pub hint : Runtime → Payload → Option String
hint rt (resolved_body l) = some (
    template (
      "Effective for "
      ∷ l.key.customer_id
      ∷ "/"
      ∷ l.key.rate_limit_id
      ∷ ": "
      ∷ rt.number_text l.limit_value
      ∷ "/"
      ∷ l.time_unit
      ∷ " ("
      ∷ (if l.is_default then "via '*' default" else "override")
      ∷ ")"
      ∷ []))
hint rt (unconfigured_body k) = some (
    template
      ("Effective for " ∷ k.customer_id ∷ "/" ∷ k.rate_limit_id ∷ ": " ∷ unconfigured_note ∷ []))
hint rt _ = none
