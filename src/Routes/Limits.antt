-- ===== src/Routes/Limits.antt =====
-- quotaui/bff/src/routes/limits.ts: the five routes on limits.
use regional_rate_limiter.Prelude.{String, true, none, some, map, ◌==◌, eqb, if◌then◌else◌}
use regional_rate_limiter.Js.{Runtime, Fields, property, truthy, query_number}
use regional_rate_limiter.Rbac.{User, limits_read, limit_write, limit_delete}
use regional_rate_limiter.Validation.{LimitKey, validate_limit, validate_key}
use regional_rate_limiter.Rpc.{Thrown, rpc_error, other_error, to_limit_view}
use regional_rate_limiter.Rpc.Backends.{Message}
use regional_rate_limiter.Reviews.{PendingOp}
use regional_rate_limiter.World.{Exec, pure, throw, catch, ◌>>=◌, ◌>>◌, call}
use regional_rate_limiter.Operations.{create_limit, update_limit, delete_limit}
use regional_rate_limiter.Routes.{
  Response, respond, empty, error_body, limit_body, limits_body, resolved_body, unconfigured_body,
  AppDeps, op_context, guard, with_valid, with_review, text_or_empty, query_text, token_or_null,
}

module _ {S : Type 0} (rt : Runtime) (deps : AppDeps S) (user : User) where
  unfoldable pub list_named : String → Fields → Exec S Response
  list_named service_name query =
      if service_name == ""
      then pure (respond 400 (error_body "service_name is required"))
      else guard deps user limits_read (some service_name) (do
        resp ←
            call deps.backends.list_limits "ListLimits" Message.list_limits
              (record {
                service_name = service_name;
                customer_id = query_text rt (property "customer_id" query);
                rate_limit_id = query_text rt (property "rate_limit_id" query);
                page_size = query_number rt (property "page_size" query);
                page_token = query_text rt (property "page_token" query);
              })
              none
        pure (
            respond 200 (
              limits_body (map (λ l. to_limit_view rt l none) resp.items)
                (token_or_null resp.next_page_token))))

  -- GET /api/limits
  unfoldable pub list_limits_route : Fields → Exec S Response
  unfolding list_named
  list_limits_route query = list_named (text_or_empty rt (property "service_name" query)) query

  -- The `catch` of the resolve route: only a 404 of an RPC is caught.
  unfoldable pub unconfigured : LimitKey → Thrown → Exec S Response
  unconfigured key (rpc_error e) =
      if eqb e.http_status 404
      then pure (respond 200 (unconfigured_body key))
      else throw (rpc_error e)
  unconfigured key (other_error m) = throw (other_error m)

  unfoldable pub resolve_key : LimitKey → Exec S Response
  resolve_key key = do
    resp ←
        call deps.backends.get_limit "GetLimit" Message.get_limit
          (record { key = key; resolve = true }) none
    pure (respond 200 (resolved_body (to_limit_view rt resp.limit (some resp.is_default))))

  -- GET /api/limits/resolve
  unfoldable pub resolve_limit_route : Fields → Exec S Response
  unfolding unconfigured resolve_key
  resolve_limit_route query = with_valid (validate_key query) λ key.
      guard deps user limits_read (some key.service_name)
        (catch (resolve_key key) (unconfigured key))

  -- POST /api/limits
  unfoldable pub create_limit_route : Fields → Exec S Response
  create_limit_route body = with_valid (validate_limit rt body) λ v.
      guard deps user limit_write (some v.key.service_name) (do
        limit ← create_limit rt deps.backends (op_context user) v.key v.limit_value v.time_unit
        pure (respond 201 (limit_body limit)))

  -- PUT /api/limits
  unfoldable pub update_limit_route : Fields → Exec S Response
  update_limit_route body = with_valid (validate_limit rt body) λ v.
      guard deps user limit_write (some v.key.service_name) (
        with_review rt deps user (PendingOp.limit_update v.key v.limit_value v.time_unit) (do
          limit ←
              update_limit rt deps.backends (op_context user) v.key v.limit_value v.time_unit
                (truthy (property "create_if_absent" body))
          pure (respond 200 (limit_body limit))))

  -- DELETE /api/limits
  unfoldable pub delete_limit_route : Fields → Exec S Response
  delete_limit_route body = with_valid (validate_key body) λ key.
      guard deps user limit_delete (some key.service_name) (
        with_review rt deps user (PendingOp.limit_delete key) (do
          delete_limit rt deps.backends (op_context user) key
              (truthy (property "allow_missing" body))
          pure (respond 204 empty)))
