-- ===== src/Start/Dev/Reused.antt =====
-- The ids of the sample data of quotaui/bff/dev/server.ts are given out again.
use regional_rate_limiter.Prelude.{
  String, none, some, ◌≡◌, ◌≢◌, refl, ◌∙◌, arith, eq_of_ne, eq_refl,
}
use regional_rate_limiter.Prelude.Dict
use regional_rate_limiter.Prelude.Dict.{get-put}
use regional_rate_limiter.Js.{Number}
use regional_rate_limiter.Validation.{LimitKey}
use regional_rate_limiter.Rpc.{Timestamp}
use regional_rate_limiter.Rpc.Backends.{CreateLimitRequest}
use regional_rate_limiter.Mocks.Quotaenforcer.{map_key}
use regional_rate_limiter.Mocks.Quotamgmt.{StoredLimit, create_limit, insert_limit, write_audit}
use regional_rate_limiter.Start.Dev.{seeded_mgmt, add_limits}

abbrev pub first_key : LimitKey
first_key = record { service_name = "search-svc"; customer_id = "*"; rate_limit_id = "default" }

first_found :
    (now : Timestamp)
    → (l : StoredLimit) × (Dict.get (map_key first_key) (seeded_mgmt now).limits ≡ some l)
      × (l.config_id ≡ (seeded_mgmt now).next_config_id)
unfolding seeded_mgmt add_limits map_key Dict.get Dict.put
first_found now = (_, refl, refl)

-- The first limit that is created after the seeding, whichever it is, gets the config id of a
-- seeded limit of another key: the counter of the mock still stands at 1. The creation names its
-- actor, and its key is free.
pub seeded_reused :
    (wire : Number → Number) (now later : Timestamp) (req : CreateLimitRequest) (actor : String)
    → actor ≢ ""
    → Dict.get (map_key req.key) (seeded_mgmt now).limits ≡ none
    → let (r, g) = create_limit wire later req (some actor) (seeded_mgmt now) in
      (old : StoredLimit) × (new : StoredLimit) × (Dict.get (map_key first_key) g.limits ≡ some old)
      × (Dict.get (map_key req.key) g.limits ≡ some new)
      × (old.config_id ≡ new.config_id)
      × (map_key req.key ≢ map_key first_key)
unfolding create_limit insert_limit write_audit
seeded_reused wire now later req actor named free =
    let (old, found, same) = first_found now in
    let other : map_key req.key ≢ map_key first_key = λ e. ground (arith, rw e at free, found) in
    let added : StoredLimit = record {
      config_id = (seeded_mgmt now).next_config_id;
      key = req.key;
      limit_value = wire req.limit_value;
      time_unit = req.time_unit;
    } in
    rw (eq_of_ne actor "" named, free)
      (
        old,
        added,
        get-put (map_key req.key) (map_key first_key) _ (seeded_mgmt now).limits
            ∙ rw (eq_of_ne _ _ other) found,
        get-put (map_key req.key) (map_key req.key) _ (seeded_mgmt now).limits
            ∙ rw (eq_refl (map_key req.key)) refl,
        same,
        other,
      )
