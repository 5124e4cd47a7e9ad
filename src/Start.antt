-- ===== src/Start.antt =====
-- How a server process starts: quotaui/bff/src/index.ts and `makeDeps` of quotaui/bff/src/deps.ts.
-- The environment variable AUTH_MODE is an argument. The stores are the world's.
pub mod Sound
pub mod Closed
pub mod Dev
use regional_rate_limiter.Prelude.{
  String, Bool, true, false, ◌==◌, Option, none, some, List, [], ◌∷◌, or_else, if◌then◌else◌,
}
use regional_rate_limiter.Rbac
use regional_rate_limiter.Rbac.{
  User, Grant, Role, viewer, service_editor, operator, admin, default_policy,
}
use regional_rate_limiter.Session.{AuthStores, seed_users}
use regional_rate_limiter.Reviews.Policy.{ReviewPolicy, default_review_policy}
use regional_rate_limiter.ActionLog
use regional_rate_limiter.Rpc.Backends.{Backends}
use regional_rate_limiter.World.{World}
use regional_rate_limiter.Routes.{AppDeps, AuthMode}

-- The argument of `makeDeps`: the backends, and what a caller gives besides. Of the stores, both
-- callers give the users alone.
pub record Partial (S : Type 0) : Type 0 where
  pub backends : Backends S
  pub grants : Option (List User)
  pub auth_mode : Option AuthMode
  pub policy : Option Rbac.Policy
  pub review_policy : Option ReviewPolicy

-- `process.env.AUTH_MODE === "oidc"`
abbrev pub is_oidc : Option String → Bool
is_oidc none = false
is_oidc (some mode) = mode == "oidc"

abbrev pub no_stores : AuthStores
no_stores = record { objects = []; users = []; sessions = [] }

-- `makeDeps`
unfoldable pub make_deps : {S : Type 0} → Option String → Partial S → AppDeps S
make_deps env p = record {
  backends = p.backends;
  auth_mode = or_else p.auth_mode (if is_oidc env then AuthMode.oidc else AuthMode.dev);
  policy = or_else p.policy default_policy;
  review_policy = or_else p.review_policy default_review_policy;
}

-- The stores of `makeDeps`, before anything has happened.
unfoldable pub make_world : {S : Type 0} → Partial S → S → World S
make_world p backend = record {
  backend = backend;
  auth = seed_users (or_else p.grants []) no_stores;
  reviews = [];
  log = ActionLog.empty;
  draws = 0;
  readings = 0;
  sent = [];
}

abbrev pub everywhere : String → String → Role → User
everywhere id email role = record {
  id = id;
  email = email;
  grants = record { role = role; service = none } ∷ [];
}

abbrev pub editor_of : String → String → String → User
editor_of id email service = record {
  id = id;
  email = email;
  grants = record { role = service_editor; service = some service } ∷ [];
}

-- `DEV_USERS` of index.ts
abbrev pub dev_users : List User
dev_users =
    everywhere "alice" "alice@anthropic.com" operator
    ∷ editor_of "bob" "bob@anthropic.com" "search-svc"
    ∷ everywhere "vic" "vic@anthropic.com" viewer
    ∷ everywhere "admin" "admin@anthropic.com" admin
    ∷ []

-- What index.ts gives to `makeDeps`.
unfoldable pub entrypoint : {S : Type 0} → Option String → Backends S → Partial S
entrypoint env backends = record {
  backends = backends;
  grants = some (if is_oidc env then [] else dev_users);
  auth_mode = none;
  policy = none;
  review_policy = none;
}
