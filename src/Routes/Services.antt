-- ===== src/Routes/Services.antt =====
-- quotaui/bff/src/routes/services.ts: the four routes on services. `toServiceView` copies the three
-- fields of a service, so it is the identity here.
use regional_rate_limiter.Prelude.{String, none, some}
use regional_rate_limiter.Js.{Runtime, Fields, field, text, property, query_number}
use regional_rate_limiter.Rbac.{User, limits_read, service_create, service_edit}
use regional_rate_limiter.Validation.{ServiceView, validate_service_body}
use regional_rate_limiter.Rpc.Backends.{Message}
use regional_rate_limiter.ActionLog.{Action, service_target, service_details}
use regional_rate_limiter.World.{Exec, pure, ◌>>=◌, ◌>>◌, call, append_log}
use regional_rate_limiter.Routes.{
  Response, respond, service_body, services_body, AppDeps, guard, with_valid, query_text,
  token_or_null,
}

-- The action-log entry of a service route.
abbrev pub service_entry : String → String → ServiceView → Action
service_entry actor action s = record {
  actor = actor;
  action = action;
  target = service_target s.service_name;
  details = service_details s.display_name s.owner;
  request_id = none;
  initiator = none;
  approver = none;
}

module _ {S : Type 0} (rt : Runtime) (deps : AppDeps S) (user : User) where
  -- GET /api/services
  unfoldable pub list_services_route : Fields → Exec S Response
  list_services_route query = guard deps user limits_read none (do
    resp ←
        call deps.backends.list_services "ListServices" Message.list_services
          (record {
            page_size = query_number rt (property "page_size" query);
            page_token = query_text rt (property "page_token" query);
          })
          none
    pure (respond 200 (services_body resp.items (token_or_null resp.next_page_token))))

  -- GET /api/services/:name
  unfoldable pub get_service_route : String → Exec S Response
  get_service_route name = guard deps user limits_read none (do
    service ← call deps.backends.get_service "GetService" Message.get_service name none
    pure (respond 200 (service_body service)))

  -- POST /api/services
  unfoldable pub create_service_route : Fields → Exec S Response
  create_service_route body = with_valid (validate_service_body body) λ s.
      guard deps user service_create (some s.service_name) (do
        service ←
            call deps.backends.register_service "RegisterService" Message.register_service s
              (some user.email)
        append_log rt (service_entry user.email "service:create" s)
        pure (respond 201 (service_body service)))

  -- PUT /api/services/:name: the name of the path wins over the body's.
  unfoldable pub edit_service_route : String → Fields → Exec S Response
  edit_service_route name body =
      with_valid (validate_service_body (field "service_name" (text name) body)) λ s.
        guard deps user service_edit (some s.service_name) (do
          service ←
              call deps.backends.register_service "RegisterService" Message.register_service s
                (some user.email)
          append_log rt (service_entry user.email "service:edit" s)
          pure (respond 200 (service_body service)))
