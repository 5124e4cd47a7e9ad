-- ===== src/Routes/Audit.antt =====
-- quotaui/bff/src/routes/audit.ts: the two routes on the audit of the limits.
pub mod Filters
use regional_rate_limiter.Prelude.{
  String, Option, none, some, List, ◌==◌, ◌&&◌, keep, if◌then◌else◌,
}
use regional_rate_limiter.Prelude.Int.{pos}
use regional_rate_limiter.Js.{
  int, is_nan, Runtime, Value, text, Fields, property, truthy, to_text, query_number, value_number,
}
use regional_rate_limiter.Rbac.{User, audit_read}
use regional_rate_limiter.Validation.{LimitKey}
use regional_rate_limiter.Rpc.{Timestamp, value, AuditView, to_audit_views}
use regional_rate_limiter.Rpc.Backends.{AuditRequest, Message}
use regional_rate_limiter.World.{Exec, pure, convert, ◌>>=◌, call}
use regional_rate_limiter.Routes.{
  Response, respond, error_body, audit_body, config_audit_body, AppDeps, guard, text_or_empty,
  query_text, token_or_null,
}

abbrev pub filter_by : String → (AuditView → String) → List AuditView → List AuditView
filter_by wanted shown entries =
    if wanted == "" then entries else keep (λ e. shown e == wanted) entries

module _ (rt : Runtime) where
  -- `isoToTimestamp`; no text is the empty one.
  unfoldable pub iso_to_timestamp : String → Option Timestamp
  iso_to_timestamp iso =
      let ms = rt.date_parse iso in
      if iso == ""
      then none
      else if is_nan ms
      then none
      else some (record {
        seconds = some (value (rt.floor (rt.divide ms (int (pos 1000)))));
        nanos = some (rt.multiply (rt.modulo ms (int (pos 1000))) (int (pos 1_000_000)));
      })

  -- The key of the query, if it names a customer and a limit.
  abbrev pub query_key : String → Fields → Option LimitKey
  query_key service_name query =
      if truthy (property "customer_id" query) && truthy (property "rate_limit_id" query)
      then some (record {
        service_name = service_name;
        customer_id = to_text rt (property "customer_id" query);
        rate_limit_id = to_text rt (property "rate_limit_id" query);
      })
      else none

  -- `String(req.query.operation).toUpperCase()`, or the empty text
  abbrev pub query_operation : Value → String
  query_operation v = if truthy v then rt.upper_case (to_text rt v) else ""

  -- The message to the control plane.
  abbrev pub audit_request : String → Fields → AuditRequest
  audit_request service_name query = record {
    service_name = service_name;
    key = query_key service_name query;
    config_id = query_number rt (property "config_id" query);
    since = iso_to_timestamp (query_text rt (property "since" query));
    page_size = query_number rt (property "page_size" query);
    page_token = query_text rt (property "page_token" query);
  }

module _ {S : Type 0} (rt : Runtime) (deps : AppDeps S) (user : User) where
  unfoldable pub audit_named : String → Fields → Exec S Response
  audit_named service_name query =
      if service_name == ""
      then pure (respond 400 (error_body "service_name is required"))
      else guard deps user audit_read (some service_name) (do
        resp ←
            call deps.backends.list_audit_entries "ListAuditEntries" Message.list_audit_entries
              (audit_request rt service_name query) none
        entries ← convert (to_audit_views rt resp.items)
        pure (
            respond 200 (
              audit_body
                (filter_by (query_operation rt (property "operation" query)) (λ e. e.operation)
                  (filter_by (query_text rt (property "changed_by" query)) (λ e. e.changed_by)
                    entries))
                (token_or_null resp.next_page_token))))

  -- GET /api/audit
  unfoldable pub list_audit_route : Fields → Exec S Response
  unfolding audit_named
  list_audit_route query = audit_named (text_or_empty rt (property "service_name" query)) query

  unfoldable pub config_audit_named : String → String → Exec S Response
  config_audit_named service_name config_id =
      if service_name == ""
      then pure (respond 400 (error_body "service_name is required"))
      else guard deps user audit_read (some service_name) (do
        resp ←
            call deps.backends.list_audit_entries "ListAuditEntries" Message.list_audit_entries
              (record {
                service_name = service_name;
                key = none;
                config_id = value_number rt (text config_id);
                since = none;
                page_size = int (pos 0);
                page_token = "";
              })
              none
        entries ← convert (to_audit_views rt resp.items)
        pure (respond 200 (config_audit_body entries)))

  -- GET /api/audit/config/:configId
  unfoldable pub config_audit_route : String → Fields → Exec S Response
  unfolding config_audit_named
  config_audit_route config_id query =
      config_audit_named (text_or_empty rt (property "service_name" query)) config_id
