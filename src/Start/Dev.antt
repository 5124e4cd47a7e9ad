-- ===== src/Start/Dev.antt =====
-- quotaui/bff/dev/server.ts: the server over mocks with sample data. `now_ts` is the time of the
-- seeding.
pub mod Reused
use regional_rate_limiter.Prelude.{ℕ, ◌+◌, String, true, Option, none, some, List, [], ◌∷◌, ◌++◌}
use regional_rate_limiter.Prelude.Int.{pos}
use regional_rate_limiter.Prelude.Dict
use regional_rate_limiter.Js.{Number, int}
use regional_rate_limiter.Rbac.{User, viewer, operator, admin}
use regional_rate_limiter.Validation.{LimitKey, ServiceView}
use regional_rate_limiter.Rpc.{Timestamp}
use regional_rate_limiter.Rpc.Backends.{Backends}
use regional_rate_limiter.Struct.{WireFields}
use regional_rate_limiter.Mocks.{Mocks, mock_backends}
use regional_rate_limiter.Mocks.Quotamgmt.{Quotamgmt, StoredLimit, AuditRow, insert, row_of}
use regional_rate_limiter.Mocks.Quotaenforcer.{map_key, Quotaenforcer, seed}
use regional_rate_limiter.Start.{Partial, everywhere, editor_of}

-- `DEV_USERS` of server.ts
abbrev pub dev_users : List User
dev_users =
    everywhere "alice" "alice@anthropic.com" operator
    ∷ everywhere "carol" "carol@anthropic.com" operator
    ∷ editor_of "bob" "bob@anthropic.com" "search-svc"
    ∷ everywhere "vic" "vic@anthropic.com" viewer
    ∷ everywhere "admin" "admin@anthropic.com" admin
    ∷ []

-- `new FakeQuotamgmt()` and `new FakeQuotaenforcer()`
abbrev pub new_mgmt : Quotamgmt
new_mgmt = record { limits = []; services = []; audit = []; next_config_id = 1; next_audit_id = 1 }

abbrev pub new_enforcer : Quotaenforcer
new_enforcer = record { state = []; last_refund = none }

abbrev add_service : ServiceView → Quotamgmt → Quotamgmt
add_service s g = record g { services = Dict.put s.service_name s g.services }

abbrev service : String → String → String → ServiceView
service name display_name owner = record {
  service_name = name;
  display_name = display_name;
  owner = owner;
}

pub record SeedLimit : Type 0 where
  pub key : LimitKey
  pub limit_value : ℕ
  pub time_unit : String

abbrev key : String → String → String → LimitKey
key s c r = record { service_name = s; customer_id = c; rate_limit_id = r }

abbrev pub seed_limits : List SeedLimit
seed_limits =
    record { key = key "search-svc" "*" "default"; limit_value = 500; time_unit = "MINUTE" }
    ∷ record {
      key = key "search-svc" "cust_42" "default";
      limit_value = 1000;
      time_unit = "MINUTE";
    }
    ∷ record { key = key "search-svc" "*" "export"; limit_value = 5; time_unit = "DAY" }
    ∷ record { key = key "search-svc" "cust_99" "export"; limit_value = 10; time_unit = "DAY" }
    ∷ record { key = key "payments-svc" "*" "charge"; limit_value = 100; time_unit = "MINUTE" }
    ∷ []

abbrev stored : ℕ → SeedLimit → StoredLimit
stored cid l = record {
  config_id = cid;
  key = l.key;
  limit_value = int (pos l.limit_value);
  time_unit = l.time_unit;
}

abbrev seed_row : Timestamp → ℕ → SeedLimit → AuditRow
seed_row now_ts cid l = record {
  audit_id = cid;
  config_id = cid;
  operation = insert;
  old_row = none;
  new_row = some (row_of (stored cid l));
  changed_by = "seed@anthropic.com";
  changed_at = now_ts;
}

-- The loop over `seedLimits`: the counters of the mock stay as they are.
unfoldable pub add_limits : Timestamp → ℕ → List SeedLimit → Quotamgmt → Quotamgmt
add_limits now_ts cid [] g = g
add_limits now_ts cid (l ∷ ls) g = add_limits now_ts (cid + 1) ls (record g {
  limits = Dict.put (map_key l.key) (stored cid l) g.limits;
  audit = g.audit ++ seed_row now_ts cid l ∷ [];
})

unfoldable pub seeded_mgmt : Timestamp → Quotamgmt
seeded_mgmt now_ts = add_limits now_ts 1 seed_limits (
    add_service (service "payments-svc" "Payments" "payments-team")
      (add_service (service "search-svc" "Search" "search-team") new_mgmt))

unfoldable pub seeded_enforcer : Quotaenforcer
seeded_enforcer =
    seed (key "search-svc" "cust_99" "export")
      (record { consumed = pos 3; limit = pos 10; configured = true })
      (seed (key "search-svc" "cust_42" "default")
        (record { consumed = pos 1003; limit = pos 1000; configured = true }) new_enforcer)

unfoldable pub seeded : Timestamp → Mocks
seeded now_ts = record { mgmt = seeded_mgmt now_ts; enforcer = seeded_enforcer }

-- What server.ts gives to `makeDeps`.
unfoldable pub dev_entrypoint :
    (WireFields → WireFields) → (Number → Number) → Timestamp → Partial Mocks
dev_entrypoint deliver wire now_ts = record {
  backends = mock_backends deliver wire now_ts;
  grants = some dev_users;
  auth_mode = none;
  policy = none;
  review_policy = none;
}
