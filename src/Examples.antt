-- ===== src/Examples.antt =====
-- A small instance of the whole program for the examples and tests: an engine, four people, the
-- mocked backends of quotaui/bff/dev/mocks.ts, and a world in which three of the people are logged
-- in.
pub mod Data
pub mod Stores
pub mod Backends
pub mod Rows
pub mod Requests
pub mod Pages
pub mod Starts
pub mod Approvals
use Prim.Native.Char.{code}
use Prim.Native.String
use regional_rate_limiter.Prelude.{
  ℕ, zero, suc, ◌+◌, ◌-◌, ◌*◌, String, Bool, true, false, ◌&&◌, Option, none, some, List, [], ◌∷◌,
  leb, if◌then◌else◌,
}
use regional_rate_limiter.Prelude.Int.{pos}
use regional_rate_limiter.Js.{
  Number, int, nan, Runtime, Value, text, number, boolean, Fields, field, end, template,
}
use regional_rate_limiter.Rbac
use regional_rate_limiter.Rbac.{Role, viewer, service_editor, operator, Grant, User, default_policy}
use regional_rate_limiter.Validation.{LimitKey}
use regional_rate_limiter.Reviews.{PendingOp, Review}
use regional_rate_limiter.Reviews
use regional_rate_limiter.Reviews.Policy.{default_review_policy}
use regional_rate_limiter.ActionLog
use regional_rate_limiter.Session.{AuthStores, seed_users, create_session}
use regional_rate_limiter.World.{World}
use regional_rate_limiter.Routes.{AppDeps, AuthMode}
use regional_rate_limiter.App.{Route, Request}
use regional_rate_limiter.Mocks.{Mocks, mock_backends}
use regional_rate_limiter.Mocks.Quotaenforcer
use regional_rate_limiter.Struct.{WireFields}
use regional_rate_limiter.Rpc.{Timestamp}

-- Texts that differ from each other.
abbrev pub hex : ℕ → String
hex zero = "r"
hex (suc n) = String.◌∷◌ "x" (hex n)

abbrev is_digit : ℕ → Bool
is_digit c = leb 48 c && leb c 57

abbrev decimal : String → ℕ → Number
decimal String.[] n = int (pos n)
decimal (String.◌∷◌ c s) n = if is_digit (code c) then decimal s (10 * n + (code c - 48)) else nan

-- An engine that reads decimal texts and has no dates.
abbrev pub engine : Runtime
engine = record {
  to_number = λ s. decimal s 0;
  number_text = λ n. "a number";
  date_parse = λ s. nan;
  iso_string = λ n. some "2026-01-01T00:00:00.000Z";
  random_hex = hex;
  now_iso = λ n. template ("2026-01-01T" ∷ hex n ∷ []);
  now_ms = λ n. int (pos n);
  add = λ a b. nan;
  multiply = λ a b. nan;
  divide = λ a b. nan;
  modulo = λ a b. nan;
  upper_case = λ s. s;
  floor = λ a. a;
}

abbrev pub global : Role → Grant
global role = record { role = role; service = none }

abbrev pub person : String → String → Grant → User
person id email grant = record { id = id; email = email; grants = grant ∷ [] }

abbrev pub alice : User
alice = person "alice" "alice@x" (global operator)

abbrev pub bob : User
bob = person "bob" "bob@x" (global operator)

abbrev pub erin : User
erin = person "erin" "erin@x" (record { role = service_editor; service = some "billing" })

abbrev pub vic : User
vic = person "vic" "vic@x" (global viewer)

abbrev pub people : AuthStores
people =
    seed_users (alice ∷ bob ∷ erin ∷ vic ∷ []) (record { objects = []; users = []; sessions = [] })

abbrev log_in : String → ℕ → AuthStores → AuthStores
log_in id i a = (create_session id "token" (int (pos 0)) i a).1

-- Alice, Bob and Erin are logged in, with cookies "a", "b" and "e".
abbrev pub logged_in : AuthStores
logged_in = log_in "e" 2 (log_in "b" 1 (log_in "a" 0 people))

abbrev pub api_key : LimitKey
api_key = record { service_name = "billing"; customer_id = "acme"; rate_limit_id = "api" }

abbrev pub noon : Timestamp
noon = record { seconds = none; nanos = none }

-- A wire that changes nothing.
abbrev pub unchanged : WireFields → WireFields
unchanged fs = fs

abbrev pub same_number : Number → Number
same_number n = n

abbrev pub deps : AppDeps Mocks
deps = record {
  backends = mock_backends unchanged same_number noon;
  auth_mode = AuthMode.dev;
  policy = default_policy;
  review_policy = default_review_policy;
}

-- 30 of 100 are consumed.
abbrev pub backend : Mocks
backend = record {
  mgmt = record { limits = []; services = []; audit = []; next_config_id = 1; next_audit_id = 1 };
  enforcer =
      Quotaenforcer.seed api_key (record { consumed = pos 30; limit = pos 100; configured = true })
        (record { state = []; last_refund = none });
}

-- Alice has asked for a reset, under the id "r1".
abbrev pub held : Reviews.ReviewStore
held =
    (Reviews.create "r1" (PendingOp.reset api_key) "alice@x" "resets a customer's window" "t0" []).1

abbrev pub start : World Mocks
start = record {
  backend = backend;
  auth = logged_in;
  reviews = held;
  log = ActionLog.empty;
  draws = 0;
  readings = 0;
  sent = [];
}

abbrev pub key_fields : Fields → Fields
key_fields rest =
    field "service_name" (text "billing")
      (field "customer_id" (text "acme") (field "rate_limit_id" (text "api") rest))

abbrev pub request : String → Route → Fields → Request
request cookie route body = record {
  route = route;
  cookie = some cookie;
  csrf = some "token";
  query = end;
  body = body;
}
