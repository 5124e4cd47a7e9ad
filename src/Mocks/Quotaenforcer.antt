-- ===== src/Mocks/Quotaenforcer.antt =====
-- `FakeQuotaenforcer`: a counter for each key, with the limit that applies to it.
use regional_rate_limiter.Prelude.{
  String, Bool, false, Option, some, [], ◌∷◌, if◌then◌else◌, or_else,
}
use regional_rate_limiter.Prelude.Int.{ℤ, pos, ◌-ℤ◌, max_ℤ}
use regional_rate_limiter.Prelude.Dict
use regional_rate_limiter.Prelude.Dict.{Dict}
use regional_rate_limiter.Js.{Number, int, template}
use regional_rate_limiter.Validation.{LimitKey}
use regional_rate_limiter.Rpc.{Timestamp, RawUsage, value}
use regional_rate_limiter.Rpc.Backends.{Reply, reply, RefundRequest, RawRefund}

-- `k`, the key of the maps of both mocks
unfoldable pub map_key : LimitKey → String
map_key key = template (key.service_name ∷ "|" ∷ key.customer_id ∷ "|" ∷ key.rate_limit_id ∷ [])

pub record Counter : Type 0 where
  pub consumed : ℤ
  pub limit : ℤ
  pub configured : Bool

pub record LastRefund : Type 0 where
  pub actor : String
  pub amount : Number
  pub request_id : String

pub record Quotaenforcer : Type 0 where
  pub state : Dict Counter
  pub last_refund : Option LastRefund

abbrev pub no_counter : Counter
no_counter = record { consumed = pos 0; limit = pos 0; configured = false }

-- The counter of a key, or that of an unconfigured one.
abbrev pub counter : LimitKey → Quotaenforcer → Counter
counter key e = or_else (Dict.get (map_key key) e.state) no_counter

-- A 64-bit integer of the wire; nothing else is sent as an amount.
abbrev pub whole : Number → ℤ
whole (int a) = a
whole _ = pos 0

-- `actorOf`
abbrev pub actor_of : Option String → String
actor_of actor = or_else actor ""

unfoldable pub seed : LimitKey → Counter → Quotaenforcer → Quotaenforcer
seed key c e = record e { state = Dict.put (map_key key) c e.state }

unfoldable pub get_usage :
    Timestamp → LimitKey → Option String → Quotaenforcer → Reply RawUsage × Quotaenforcer
get_usage now_ts key actor e =
    let c = counter key e in
    (
      reply (record {
        consumed = value (int c.consumed);
        remaining = value (int (if c.configured then c.limit -ℤ c.consumed else pos 0));
        limit = value (int c.limit);
        reset_at = some now_ts;
        configured = c.configured;
      }),
      e,
    )

-- The counter after a refund: never below 0.
abbrev pub refunded : Counter → Number → Counter
refunded c amount = record c { consumed = max_ℤ (pos 0) (c.consumed -ℤ whole amount) }

unfoldable pub refund :
    Timestamp → RefundRequest → Option String → Quotaenforcer → Reply RawRefund × Quotaenforcer
refund now_ts req actor e =
    let c = refunded (counter req.key e) req.amount in
    (
      reply (record {
        remaining = value (int (c.limit -ℤ c.consumed));
        limit = value (int c.limit);
        reset_at = some now_ts;
      }),
      record {
        state = Dict.put (map_key req.key) c e.state;
        last_refund =
            some
              (record { actor = actor_of actor; amount = req.amount; request_id = req.request_id });
      },
    )
