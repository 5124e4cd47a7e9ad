-- ===== src/Browser/Services.antt =====
-- quotaui/frontend/src/pages/Services.tsx: registration and management of services.
use regional_rate_limiter.Prelude.{
  String, Bool, false, not, ◌||◌, Option, none, some, List, [], ◌==◌, if◌then◌else◌,
}
use regional_rate_limiter.Js.{Runtime}
use regional_rate_limiter.Rbac.Mirror.{service_create, service_edit}
use regional_rate_limiter.Validation.{ServiceView}
use regional_rate_limiter.Routes.{Payload, services_body}
use regional_rate_limiter.Browser.{Server, Tab, Answer, on_answer, PageError}
use regional_rate_limiter.Browser.Api.{get_services, post_service, put_service}
use regional_rate_limiter.Browser.Session.{Provider, can}

pub record ServicesPage : Type 0 where
  pub services : List ServiceView
  pub error : Option PageError
  pub form : ServiceView
  pub editing_name : Option String

abbrev pub blank_form : ServiceView
blank_form = record { service_name = ""; display_name = ""; owner = "" }

-- `(…).services`
abbrev pub services_of : Payload → List ServiceView
services_of (services_body ss token) = ss
services_of _ = []

-- `if (editingName)`
abbrev pub is_editing : ServicesPage → Bool
is_editing p = elim p.editing_name [ none ↦ false | some name ↦ not (name == "") ]

module _ {W : Type 0} (rt : Runtime) (server : Server W) where
  -- `load`
  unfoldable pub load : ServicesPage → Tab W → ServicesPage × Tab W
  load p t =
      let (a, t') = get_services rt server t in
      (
        on_answer a (λ body. record p { services = services_of body; error = none })
            (λ e. record p { error = some e }),
        t',
      )

  abbrev pub send_form : ServicesPage → Tab W → Answer × Tab W
  send_form p t = elim p.editing_name [
    | none ↦ post_service rt server p.form t
    | some name ↦
        if name == ""
        then post_service rt server p.form t
        else put_service rt server name p.form.display_name p.form.owner t
  ]

  -- `submit`
  unfoldable pub submit : ServicesPage → Tab W → ServicesPage × Tab W
  submit p t =
      let (a, t') = send_form p t in
      on_answer a
        (λ body. load (record p { error = none; form = blank_form; editing_name = none }) t')
        (λ e. (record p { error = some e }, t'))

-- The edit button of a row, and what it does.
abbrev pub edit_button : Provider → ServiceView → Bool
edit_button session s = can session service_edit (some s.service_name)

abbrev pub edit : ServiceView → ServicesPage → ServicesPage
edit s p = record p { form = s; editing_name = some s.service_name }

-- The cancel button.
abbrev pub cancel : ServicesPage → ServicesPage
cancel p = record p { editing_name = none; form = blank_form }

-- Whether the form is there.
abbrev pub form_shown : Provider → ServicesPage → Bool
form_shown session p = can session service_create (some p.form.service_name) || is_editing p
