-- ===== src/Examples/Pages.antt =====
-- The theorems on the browser's program, at concrete inputs.
use Prim.Native.String as Text
use Prim.Native.String.{count}
use regional_rate_limiter.Prelude.{
  ℕ, zero, suc, String, Bool, true, false, Option, none, some, [], ◌∷◌, ◌≡◌, ◌≢◌, ◌↔◌, refl, inl,
  inr, arith, ap,
}
use regional_rate_limiter.Prelude.Int.{pos}
use regional_rate_limiter.Prelude.Dict
use regional_rate_limiter.Js.{int, Value, text, Fields, field, end, template}
use regional_rate_limiter.Rbac.{
  limit_write, authorize, is_global_operator_or_admin, has_global_role, can_edit_service,
}
use regional_rate_limiter.Rpc.{LimitView}
use regional_rate_limiter.Session.{
  Session, put, seed_users, put_user, create_session, get_user, get_session, object_at,
}
use regional_rate_limiter.World.{World}
use regional_rate_limiter.Routes.{respond, error_body}
use regional_rate_limiter.Routes.Allowed.{May}
use regional_rate_limiter.Reviews.Policy.{review_reason}
use regional_rate_limiter.Reviews.{PendingOp}
use regional_rate_limiter.App.{ApiRoute, api, update_limit, method_of, handle}
use regional_rate_limiter.App.Gate.{IsFrom}
use regional_rate_limiter.Mocks.{Mocks}
use regional_rate_limiter.Browser.{Server, Tab, request}
use regional_rate_limiter.Browser.Api.{limit_fields}
use regional_rate_limiter.Browser.Session.{SessionInfo, initial, login, logout, load}
use regional_rate_limiter.Browser.Session.SignIn.{bff, login-IsFrom, logout-IsRefused}
use regional_rate_limiter.Browser.Session.Reload.{reloaded, info, load-IsFrom}
use regional_rate_limiter.Browser.Limits.{LimitsPage, Kind, search}
use regional_rate_limiter.Browser.Limits.Search.{Shows, search-Shows}
use regional_rate_limiter.Browser.Limits.Editor.{open_editor, stays, save}
use regional_rate_limiter.Browser.Limits.Held.{IsFilledIn, with_filed, save_held}
use regional_rate_limiter.Browser.Components.{diff_rows}
use regional_rate_limiter.Browser.Components.Diff.{IsDiff, diff_rows-IsDiff}
use regional_rate_limiter.Browser.Windows.{Date, TimeUnit, window_id, pad, digits, zeros}
use regional_rate_limiter.Browser.Windows.Exact.{
  IsCalendar, SameWindow, width, window_id-length, window_id_iff,
}
use regional_rate_limiter.Examples.{engine, hex, deps, start, alice}

named_text : (c : String) → Bool
named_text Text.[] = false
named_text (Text.◌∷◌ c s) = true

hex_named : (n : ℕ) → hex n ≢ ""
unfolding named_text
hex_named zero e = ground (arith, ap named_text e)
hex_named (suc n) e = ground (arith, ap named_text e)

-- A browser that holds the cookie of Alice's session, and its token.
abbrev alices_tab : Tab (World Mocks)
alices_tab = record { client = record { csrf_token = "token"; cookie = some "a" }; remote = start }

alice_known : get_user "alice" alices_tab.remote.auth ≡ some 0
unfolding get_user seed_users put_user Dict.get Dict.put create_session
alice_known = refl

alice_there : object_at alices_tab.remote.auth.objects 0 ≡ some alice
unfolding seed_users put_user create_session
alice_there = refl

abbrev alices : Session
alices = record { id = "a"; user = 0; csrf_token = "token"; created_at = int (pos 0) }

alice_found : get_session (some "a") alices_tab.remote.auth ≡ some alices
unfolding get_session seed_users put_user Dict.get Dict.put create_session
alice_found = refl

abbrev mocked_bff : Server (World Mocks)
mocked_bff = bff engine deps

login-IsFrom_example :
    let (p', t') = login engine mocked_bff "alice" initial alices_tab in
    ((info : SessionInfo) × (p'.session ≡ some info)
      × (info.email ≡ alice.email)
      × (info.grants ≡ alice.grants))
    × ((route : ApiRoute) (query : Fields) (body : Option Fields)
        → IsFrom (request (method_of route) (api route) query body t'.client) t'.remote alice)
login-IsFrom_example =
    login-IsFrom engine deps "alice" initial alices_tab 0 alice hex_named refl alice_known
      alice_there

logout-IsRefused_example :
    let (p', t') = logout engine mocked_bff initial alices_tab in
    (p'.session ≡ none)
    × (t'.client.csrf_token ≡ "")
    × (get_session (some "a") t'.remote.auth ≡ none)
    × ((route : ApiRoute) (query : Fields) (body : Option Fields)
        → handle engine deps (request (method_of route) (api route) query body t'.client) t'.remote
          ≡ (respond 401 (error_body "not authenticated"), t'.remote))
logout-IsRefused_example = logout-IsRefused engine deps initial alices_tab "a" refl

token_named : alices.csrf_token ≢ ""
unfolding named_text
token_named e = ground (arith, ap named_text e)

load-IsFrom_example :
    let (p', t') = load engine mocked_bff initial (reloaded alices_tab) in
    (p' ≡ record { session = some (info alice alices); loading = false })
    × (t'.remote ≡ alices_tab.remote)
    × ((route : ApiRoute) (query : Fields) (body : Option Fields)
        → IsFrom (request (method_of route) (api route) query body t'.client) t'.remote alice)
load-IsFrom_example =
    load-IsFrom engine deps alices_tab alices alice alice_found alice_there token_named

-- The '*' default of a stored limit, with a new value.
abbrev default_limit : LimitView
default_limit = record {
  config_id = some (int (pos 7));
  key = record { service_name = "billing"; customer_id = "*"; rate_limit_id = "api" };
  limit_value = int (pos 100);
  time_unit = "DAY";
  is_default = true;
}

default-IsFilledIn : IsFilledIn default_limit 100
unfolding named_text
default-IsFilledIn = record {
  service = λ e. ground (arith, ap named_text e);
  customer = λ e. ground (arith, ap named_text e);
  limit_id = λ e. ground (arith, ap named_text e);
  value = refl;
  unit = inr (inl refl);
  stored = (7, refl);
}

alices_save :
    IsFrom
      (request put (api update_limit) end (some (limit_fields default_limit)) alices_tab.client)
      alices_tab.remote
      alice
alices_save = record {
  route = update_limit;
  routed = refl;
  live = alices;
  found = alice_found;
  owner = alice_there;
  csrf = (refl, token_named);
}

alice-May : May alice deps.policy limit_write (some "billing")
unfolding authorize is_global_operator_or_admin has_global_role can_edit_service
alice-May = refl

abbrev reason : String
reason = template (
    "changes a '*' default for " ∷ "billing" ∷ "/" ∷ "api"
    ∷ " (affects all customers without an override)" ∷ [])

is_reason :
    review_reason engine
      (PendingOp.limit_update default_limit.key (int (pos 100)) "DAY")
      deps.review_policy
    ≡ some reason
unfolding review_reason
is_reason = refl

save_held_example :
    ((save engine mocked_bff (open_editor default_limit) alices_tab).0
      ≡ stays (record (open_editor default_limit) {
        error = none;
        notice = some (template ("Change" ∷ " requires two-person review: " ∷ reason ∷ []));
      }))
    × ((save engine mocked_bff (open_editor default_limit) alices_tab).1.remote
        ≡ with_filed engine deps alice default_limit reason start)
save_held_example =
    save_held engine deps alice (open_editor default_limit) alices_tab 100 reason default-IsFilledIn
      refl alices_save alice-May is_reason

abbrev billing_page : LimitsPage
billing_page = record {
  service = "billing";
  customer = "acme";
  rlid = "api";
  kind = Kind.all;
  limits = [];
  effective = none;
  error = none;
  editing = none;
}

billing_named : billing_page.service ≢ ""
unfolding named_text
billing_named e = ground (arith, ap named_text e)

search-Shows_example :
    Shows engine mocked_bff billing_page alices_tab
      (search engine mocked_bff billing_page alices_tab).0
search-Shows_example = search-Shows engine mocked_bff billing_page alices_tab billing_named

abbrev no_text : Value → Option String
no_text (text s) = some s
no_text _ = none

abbrev old_row : Option Fields
old_row = some (field "time_unit" (text "DAY") end)

abbrev new_row : Option Fields
new_row = some (field "time_unit" (text "MONTH") (field "limit_value" (text "5") end))

diff_rows-IsDiff_example : IsDiff no_text old_row new_row (diff_rows no_text old_row new_row)
diff_rows-IsDiff_example = diff_rows-IsDiff no_text old_row new_row

abbrev new_year : Date
new_year = record { full_year = 2026; month = 0; date = 1; hours = 0; minutes = 5 }

new_year-IsCalendar : IsCalendar new_year
new_year-IsCalendar = record {
  full_year = omega arith;
  month = omega arith;
  date = omega arith;
  hours = omega arith;
  minutes = omega arith;
}

new_year_id : window_id TimeUnit.minute new_year ≡ "202601010005"
unfolding window_id pad digits zeros
new_year_id = refl

window_id-length_example : count (window_id TimeUnit.minute new_year) ≡ width TimeUnit.minute
window_id-length_example = window_id-length TimeUnit.minute new_year new_year-IsCalendar

window_id_iff_example :
    (window_id TimeUnit.day new_year ≡ window_id TimeUnit.day new_year)
    ↔ SameWindow TimeUnit.day new_year new_year
window_id_iff_example =
    window_id_iff TimeUnit.day new_year new_year new_year-IsCalendar new_year-IsCalendar
