-- ===== src/Browser/Limits/Editor.antt =====
-- `LimitEditor` of quotaui/frontend/src/pages/LimitsBrowser.tsx, and what its parent does once it has
-- saved.
use regional_rate_limiter.Prelude.{
  String, Bool, true, false, Option, none, some, List, [], ◌∷◌, ◌==◌, if◌then◌else◌,
}
use regional_rate_limiter.Js.{Runtime, Value, text, number, Fields, field, end, template}
use regional_rate_limiter.Reviews.{Review}
use regional_rate_limiter.Validation.{LimitKey}
use regional_rate_limiter.Rpc.{LimitView}
use regional_rate_limiter.Browser.{Server, Tab, on_answer, PageError, pending_of}
use regional_rate_limiter.Browser.Api.{post_limit, put_limit, remove_limit}
use regional_rate_limiter.Browser.Components.{FieldDiff, diff_rows}
use regional_rate_limiter.Browser.Limits.{LimitsPage, search}

pub record Editor : Type 0 where
  pub initial : LimitView
  pub form : LimitView
  pub error : Option PageError
  pub notice : Option String
  pub confirm_delete : String

-- The editor of a row, or of a new limit.
abbrev pub open_editor : LimitView → Editor
open_editor l = record { initial = l; form = l; error = none; notice = none; confirm_delete = "" }

-- The edit button of another row, or the button for a new limit, while the editor is open: its state
-- outlives the change of what it was opened with.
abbrev pub reopen : LimitView → Editor → Editor
reopen l e = record e { initial = l }

abbrev pub is_new : Editor → Bool
is_new e = elim e.initial.config_id [ none ↦ true | some n ↦ false ]

-- The key to type before a deletion.
abbrev pub tuple : Editor → String
tuple e =
    template
      (e.form.key.service_name ∷ "/" ∷ e.form.key.customer_id ∷ "/" ∷ e.form.key.rate_limit_id ∷ [])

-- What `onChange` of the value's field does with the text typed.
abbrev pub type_value : Runtime → String → Editor → Editor
type_value rt s e = record e { form = record e.form { limit_value = rt.to_number s } }

-- The three fields of the key, disabled for a limit that exists.
abbrev pub type_key : LimitKey → Editor → Editor
type_key k e = if is_new e then record e { form = record e.form { key = k } } else e

-- The text typed before a deletion.
abbrev pub type_confirmation : String → Editor → Editor
type_confirmation s e = record e { confirm_delete = s }

abbrev pub choose_unit : String → Editor → Editor
choose_unit u e = record e { form = record e.form { time_unit = u } }

abbrev row_of : LimitView → Fields
row_of l = field "limit_value" (number l.limit_value) (field "time_unit" (text l.time_unit) end)

-- The preview of the change.
abbrev pub preview : (Value → Option String) → Editor → List FieldDiff
preview stringify e =
    diff_rows stringify (if is_new e then none else some (row_of e.initial)) (some (row_of e.form))

-- The warning on a '*' default.
abbrev pub warns_default : Editor → Bool
warns_default e = e.form.key.customer_id == "*"

-- The delete button is there for a limit that exists, and enabled once its key is typed.
abbrev pub delete_enabled : Editor → Bool
delete_enabled e = if is_new e then false else e.confirm_delete == tuple e

-- An editor goes on, or has called `onSaved`.
pub data Edited : Type 0 where
  stays : Editor → Edited
  saved : Edited

abbrev pub fresh : Editor → Editor
fresh e = record e { error = none; notice = none }

abbrev pub noticed : String → Editor → Option Review → Edited
noticed what e none = saved
noticed what e (some r) =
    stays (record e {
      notice = some (template (what ∷ " requires two-person review: " ∷ r.reason ∷ []));
    })

abbrev pub failed_edit : Editor → PageError → Edited
failed_edit e err = stays (record e { error = some err })

module _ {W : Type 0} (rt : Runtime) (server : Server W) where
  -- `save`: a new limit is created, another one updated.
  unfoldable pub save : Editor → Tab W → Edited × Tab W
  save e t =
      if is_new e
      then (let (a, t') = post_limit rt server e.form t in
          (on_answer a (λ body. saved) (failed_edit (fresh e)), t'))
      else (let (a, t') = put_limit rt server e.form t in
          (
            on_answer a (λ body. noticed "Change" (fresh e) (pending_of body))
                (failed_edit (fresh e)),
            t',
          ))

  -- `del`
  unfoldable pub del : Editor → Tab W → Edited × Tab W
  del e t =
      let (a, t') = remove_limit rt server e.form.key t in
      (
        on_answer a (λ body. noticed "Delete" (fresh e) (pending_of body)) (failed_edit (fresh e)),
        t',
      )

  -- The page after the editor: `onSaved` closes it and searches again.
  abbrev pub after_edit : LimitsPage → Edited → Tab W → LimitsPage × Tab W
  after_edit p (stays e) t = (p, t)
  after_edit p saved t = search rt server (record p { editing = none }) t
