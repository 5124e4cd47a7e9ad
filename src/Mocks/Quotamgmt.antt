-- ===== src/Mocks/Quotamgmt.antt =====
-- `FakeQuotamgmt`: limits and services in maps, and an audit row for each change of a limit.
--
-- A limit's value crosses the wire as a 64-bit integer, in a text: `wire` is the number that
-- `Number` reads from the text that arrives for a number that was sent.
use regional_rate_limiter.Prelude.{
  ℕ, ◌+◌, String, Bool, true, ◌&&◌, ◌||◌, Option, none, some, List, [], ◌∷◌, ◌++◌, map, ◌==◌, keep,
  if◌then◌else◌,
}
use regional_rate_limiter.Prelude.Int.{pos}
use regional_rate_limiter.Prelude.Dict
use regional_rate_limiter.Prelude.Dict.{Dict}
use regional_rate_limiter.Js.{Number, int}
use regional_rate_limiter.Validation.{LimitKey, ServiceView}
use regional_rate_limiter.Rpc.{
  Timestamp, RawLimit, GrpcStatus, invalid_argument, already_exists, not_found, value,
}
use regional_rate_limiter.Rpc.Backends.{
  Reply, reply, failure, CreateLimitRequest, UpdateLimitRequest, DeleteLimitRequest,
  GetLimitRequest, GetLimitResponse, ListLimitsRequest, ListServicesRequest, Page,
}
use regional_rate_limiter.Mocks.Quotaenforcer.{map_key, actor_of}

pub record StoredLimit : Type 0 where
  pub config_id : ℕ
  pub key : LimitKey
  pub limit_value : Number
  pub time_unit : String

-- `{ ...key, limit_value, time_unit }`
pub record Row : Type 0 where
  pub key : LimitKey
  pub limit_value : Number
  pub time_unit : String

pub data Operation : Type 0 where
  insert update delete : Operation

pub record AuditRow : Type 0 where
  pub audit_id : ℕ
  pub config_id : ℕ
  pub operation : Operation
  pub old_row : Option Row
  pub new_row : Option Row
  pub changed_by : String
  pub changed_at : Timestamp

pub record Quotamgmt : Type 0 where
  pub limits : Dict StoredLimit
  pub services : Dict ServiceView
  pub audit : List AuditRow
  pub next_config_id : ℕ
  pub next_audit_id : ℕ

abbrev pub row_of : StoredLimit → Row
row_of l = record { key = l.key; limit_value = l.limit_value; time_unit = l.time_unit }

abbrev pub raw : StoredLimit → RawLimit
raw l = record {
  key = l.key;
  limit_value = some (value l.limit_value);
  time_unit = l.time_unit;
  config_id = some (value (int (pos l.config_id)));
}

abbrev pub error : {A : Type 0} → GrpcStatus → String → Reply A
error code details = failure (record { code = some code; details = details; message = details })

unfoldable pub write_audit :
    Timestamp → Operation → Option Row → Option Row → String → ℕ → Quotamgmt → Quotamgmt
write_audit now_ts op old_row new_row actor config_id g = record g {
  audit =
      g.audit
      ++ record {
        audit_id = g.next_audit_id;
        config_id = config_id;
        operation = op;
        old_row = old_row;
        new_row = new_row;
        changed_by = actor;
        changed_at = now_ts;
      }
        ∷ [];
  next_audit_id = g.next_audit_id + 1;
}

-- The insertion that `CreateLimit` and an upsert share.
unfoldable pub insert_limit :
    (Number → Number)
    → Timestamp
    → LimitKey
    → Number
    → String
    → String
    → Quotamgmt
    → Reply RawLimit × Quotamgmt
unfolding write_audit
insert_limit wire now_ts key limit_value time_unit actor g =
    let stored : StoredLimit = record {
      config_id = g.next_config_id;
      key = key;
      limit_value = wire limit_value;
      time_unit = time_unit;
    } in
    let g' = record g {
      limits = Dict.put (map_key key) stored g.limits;
      next_config_id = g.next_config_id + 1;
    } in
    (
      reply (raw stored),
      write_audit now_ts insert none (some (row_of stored)) actor stored.config_id g',
    )

unfoldable pub create_limit :
    (Number → Number)
    → Timestamp
    → CreateLimitRequest
    → Option String
    → Quotamgmt
    → Reply RawLimit × Quotamgmt
unfolding insert_limit
create_limit wire now_ts req actor g =
    if actor_of actor == ""
    then (error invalid_argument "app.actor must be set", g)
    else elim (Dict.get (map_key req.key) g.limits) [
      | some old ↦ (error already_exists "limit already exists", g)
      | none ↦ insert_limit wire now_ts req.key req.limit_value req.time_unit (actor_of actor) g
    ]

-- The update of a stored limit, in place.
unfoldable pub overwrite :
    (Number → Number)
    → Timestamp
    → UpdateLimitRequest
    → String
    → StoredLimit
    → Quotamgmt
    → Reply RawLimit × Quotamgmt
unfolding write_audit
overwrite wire now_ts req actor old g =
    let stored = record old { limit_value = wire req.limit_value; time_unit = req.time_unit } in
    let old_row : Row = record {
      key = req.key;
      limit_value = old.limit_value;
      time_unit = old.time_unit;
    } in
    let new_row : Row = record {
      key = req.key;
      limit_value = stored.limit_value;
      time_unit = req.time_unit;
    } in
    (
      reply (raw stored),
      write_audit now_ts update (some old_row) (some new_row) actor old.config_id
          (record g { limits = Dict.put (map_key req.key) stored g.limits }),
    )

unfoldable pub update_limit :
    (Number → Number)
    → Timestamp
    → UpdateLimitRequest
    → Option String
    → Quotamgmt
    → Reply RawLimit × Quotamgmt
unfolding insert_limit overwrite
update_limit wire now_ts req actor g =
    if actor_of actor == ""
    then (error invalid_argument "app.actor must be set", g)
    else elim (Dict.get (map_key req.key) g.limits) [
      | some old ↦ overwrite wire now_ts req (actor_of actor) old g
      | none ↦
          if req.create_if_absent
          then insert_limit wire now_ts req.key req.limit_value req.time_unit (actor_of actor) g
          else (error not_found "no such limit", g)
    ]

unfoldable pub delete_limit :
    Timestamp → DeleteLimitRequest → Option String → Quotamgmt → Reply (Unit {0}) × Quotamgmt
unfolding write_audit
delete_limit now_ts req actor g =
    if actor_of actor == ""
    then (error invalid_argument "app.actor must be set", g)
    else elim (Dict.get (map_key req.key) g.limits) [
      | none ↦ if req.allow_missing then (reply tt, g) else (error not_found "no such limit", g)
      | some old ↦
          let old_row : Row = record {
            key = req.key;
            limit_value = old.limit_value;
            time_unit = old.time_unit;
          } in
          (
            reply tt,
            write_audit now_ts delete (some old_row) none (actor_of actor) old.config_id
                (record g { limits = Dict.remove (map_key req.key) g.limits }),
          )
    ]

-- The key of the '*' default.
abbrev pub default_key : LimitKey → LimitKey
default_key key = record key { customer_id = "*" }

abbrev pub fallback : GetLimitRequest → Quotamgmt → Reply GetLimitResponse
fallback req g = elim (Dict.get (map_key (default_key req.key)) g.limits) [
  | some l ↦ reply (record { limit = raw l; is_default = true })
  | none ↦ error not_found "unconfigured"
]

unfoldable pub get_limit :
    GetLimitRequest → Option String → Quotamgmt → Reply GetLimitResponse × Quotamgmt
get_limit req actor g = elim (Dict.get (map_key req.key) g.limits) [
  | some l ↦ (reply (record { limit = raw l; is_default = req.key.customer_id == "*" }), g)
  | none ↦ (if req.resolve then fallback req g else error not_found "unconfigured", g)
]

abbrev pub selects : ListLimitsRequest → StoredLimit → Bool
selects req l =
    l.key.service_name == req.service_name
    && ((req.customer_id == "" || l.key.customer_id == req.customer_id)
        && (req.rate_limit_id == "" || l.key.rate_limit_id == req.rate_limit_id))

unfoldable pub list_limits :
    ListLimitsRequest → Option String → Quotamgmt → Reply (Page RawLimit) × Quotamgmt
list_limits req actor g = (
  reply (record {
    items = map raw (keep (selects req) (Dict.values g.limits));
    next_page_token = "";
  }),
  g,
)

unfoldable pub register_service :
    ServiceView → Option String → Quotamgmt → Reply ServiceView × Quotamgmt
register_service s actor g = (reply s, record g { services = Dict.put s.service_name s g.services })

unfoldable pub get_service : String → Option String → Quotamgmt → Reply ServiceView × Quotamgmt
get_service name actor g = elim (Dict.get name g.services) [
  | none ↦ (error not_found "no such service", g)
  | some s ↦ (reply s, g)
]

unfoldable pub list_services :
    ListServicesRequest → Option String → Quotamgmt → Reply (Page ServiceView) × Quotamgmt
list_services req actor g =
    (reply (record { items = Dict.values g.services; next_page_token = "" }), g)
