-- ===== src/Browser/Api.antt =====
-- The calls of `api` in quotaui/frontend/src/api.ts, one for each route that the pages use.
use regional_rate_limiter.Prelude.{String, Option, none, some}
use regional_rate_limiter.Js.{
  Runtime, Number, Value, null, boolean, number, text, Fields, end, field,
}
use regional_rate_limiter.Validation.{LimitKey, ServiceView}
use regional_rate_limiter.Rpc.{LimitView}
use regional_rate_limiter.Session.{get, post, put, delete}
use regional_rate_limiter.App.{
  login, logout, api, session, list_limits, resolve_limit, create_limit, update_limit, delete_limit,
  list_services, create_service, edit_service, usage, refund, reset, list_audit, list_reviews,
  approve_review, reject_review,
}
use regional_rate_limiter.Browser.{Server, Tab, Answer, qs, req}

abbrev pub key_fields : LimitKey → Fields → Fields
key_fields k rest =
    field "service_name" (text k.service_name)
      (field "customer_id" (text k.customer_id) (field "rate_limit_id" (text k.rate_limit_id) rest))

abbrev id_value : Option Number → Value
id_value none = null
id_value (some n) = number n

abbrev pub limit_fields : LimitView → Fields
limit_fields l = field "config_id" (id_value l.config_id) (
    key_fields l.key (
      field "limit_value" (number l.limit_value)
        (field "time_unit" (text l.time_unit) (field "is_default" (boolean l.is_default) end))))

abbrev pub service_fields : ServiceView → Fields
service_fields s =
    field "service_name" (text s.service_name)
      (field "display_name" (text s.display_name) (field "owner" (text s.owner) end))

module _ {W : Type 0} (rt : Runtime) (server : Server W) where
  unfoldable pub sign_in : String → Tab W → Answer × Tab W
  sign_in user = req rt server post login end (some (field "user" (text user) end))

  unfoldable pub sign_out : Tab W → Answer × Tab W
  sign_out = req rt server post logout end none

  unfoldable pub get_session_info : Tab W → Answer × Tab W
  get_session_info = req rt server get (api session) end none

  -- The parameters: service_name, and customer_id and rate_limit_id, which may be undefined.
  unfoldable pub get_limits : Fields → Tab W → Answer × Tab W
  get_limits params = req rt server get (api list_limits) (qs rt params) none

  unfoldable pub get_effective : LimitKey → Tab W → Answer × Tab W
  get_effective k = req rt server get (api resolve_limit) (qs rt (key_fields k end)) none

  unfoldable pub post_limit : LimitView → Tab W → Answer × Tab W
  post_limit l = req rt server post (api create_limit) end (some (limit_fields l))

  unfoldable pub put_limit : LimitView → Tab W → Answer × Tab W
  put_limit l = req rt server put (api update_limit) end (some (limit_fields l))

  unfoldable pub remove_limit : LimitKey → Tab W → Answer × Tab W
  remove_limit k = req rt server delete (api delete_limit) end (some (key_fields k end))

  unfoldable pub get_services : Tab W → Answer × Tab W
  get_services = req rt server get (api list_services) end none

  unfoldable pub post_service : ServiceView → Tab W → Answer × Tab W
  post_service s = req rt server post (api create_service) end (some (service_fields s))

  unfoldable pub put_service : String → String → String → Tab W → Answer × Tab W
  put_service name display_name owner =
      req rt server put (api (edit_service name)) end
        (some (field "display_name" (text display_name) (field "owner" (text owner) end)))

  unfoldable pub fetch_usage : LimitKey → Tab W → Answer × Tab W
  fetch_usage k = req rt server get (api usage) (qs rt (key_fields k end)) none

  unfoldable pub post_refund : LimitKey → Number → Tab W → Answer × Tab W
  post_refund k amount =
      req rt server post (api refund) end (some (key_fields k (field "amount" (number amount) end)))

  unfoldable pub post_reset : LimitKey → Tab W → Answer × Tab W
  post_reset k = req rt server post (api reset) end (some (key_fields k end))

  -- The parameters: service_name, and the filters, which may be undefined.
  unfoldable pub get_audit : Fields → Tab W → Answer × Tab W
  get_audit params = req rt server get (api list_audit) (qs rt params) none

  unfoldable pub get_reviews : Tab W → Answer × Tab W
  get_reviews = req rt server get (api list_reviews) end none

  unfoldable pub post_approval : String → Tab W → Answer × Tab W
  post_approval id = req rt server post (api (approve_review id)) end none

  unfoldable pub post_rejection : String → Tab W → Answer × Tab W
  post_rejection id = req rt server post (api (reject_review id)) end none
