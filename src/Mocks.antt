-- ===== src/Mocks.antt =====
-- quotaui/bff/dev/mocks.ts: in-memory versions of the two backends, against which the server is
-- tested. They implement the interface `Backends`.
--
-- A request and a reply cross the wire unchanged, but for structs, of which `deliver` says what the
-- wire makes of them, and the values of limits, of which `wire` says it. `now_ts` is the time at which a
-- mock answers. A service's fields are the three of `ServiceView`.
pub mod Quotamgmt
pub mod Entries
pub mod Quotaenforcer
pub mod Keys
pub mod Table
pub mod Refinement
pub mod Audit
pub mod Reset
use regional_rate_limiter.Prelude.{String, Option, some}
use regional_rate_limiter.Js.{Number}
use regional_rate_limiter.Struct.{WireFields}
use regional_rate_limiter.Rpc.{Timestamp}
use regional_rate_limiter.Rpc.Backends.{Reply, Backends}

-- The two servers of the harness.
pub record Mocks : Type 0 where
  pub mgmt : Quotamgmt.Quotamgmt
  pub enforcer : Quotaenforcer.Quotaenforcer

abbrev on_mgmt :
    {Req Res : Type 0}
    → (Req → Option String → Quotamgmt.Quotamgmt → Reply Res × Quotamgmt.Quotamgmt)
    → Option (Req → Option String → Mocks → Reply Res × Mocks)
on_mgmt f = some λ req actor m. let (r, g) = f req actor m.mgmt in (r, record m { mgmt = g })

abbrev on_enforcer :
    {Req Res : Type 0}
    → (Req → Option String → Quotaenforcer.Quotaenforcer → Reply Res × Quotaenforcer.Quotaenforcer)
    → Option (Req → Option String → Mocks → Reply Res × Mocks)
on_enforcer f =
    some λ req actor m. let (r, g) = f req actor m.enforcer in (r, record m { enforcer = g })

unfoldable pub mock_backends :
    (WireFields → WireFields) → (Number → Number) → Timestamp → Backends Mocks
mock_backends deliver wire now_ts = record {
  create_limit = on_mgmt (Quotamgmt.create_limit wire now_ts);
  update_limit = on_mgmt (Quotamgmt.update_limit wire now_ts);
  delete_limit = on_mgmt (Quotamgmt.delete_limit now_ts);
  get_limit = on_mgmt Quotamgmt.get_limit;
  list_limits = on_mgmt Quotamgmt.list_limits;
  register_service = on_mgmt Quotamgmt.register_service;
  get_service = on_mgmt Quotamgmt.get_service;
  list_services = on_mgmt Quotamgmt.list_services;
  list_audit_entries = on_mgmt (Entries.list_audit_entries deliver);
  refund = on_enforcer (Quotaenforcer.refund now_ts);
  get_usage = on_enforcer (Quotaenforcer.get_usage now_ts);
}
