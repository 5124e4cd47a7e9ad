-- ===== src/Session.antt =====
-- quotaui/bff/src/session.ts: the grant store, the session store, and the two gates in front of
-- every route.
--
-- A `User` object is shared: the grant store maps ids to it and sessions refer to it, and
-- `setGrants` writes it in place. So user objects live in a list, and both stores hold positions
-- in it. The random texts and the time that `create` reads are arguments.
pub mod Linked
pub mod Token
use regional_rate_limiter.Prelude.{
  ℕ, zero, suc, ◌+◌, String, Bool, true, false, Option, none, some, List, [], ◌∷◌, ◌++◌, ◌==◌,
  length, if◌then◌else◌,
}
use regional_rate_limiter.Prelude.Dict
use regional_rate_limiter.Prelude.Dict.{Dict}
use regional_rate_limiter.Js.{Number}
use regional_rate_limiter.Rbac.{Grant, User}

pub record Session : Type 0 where
  pub id : String
  pub user : ℕ
  pub csrf_token : String
  pub created_at : Number

pub record AuthStores : Type 0 where
  pub objects : List User
  pub users : Dict ℕ  -- GrantStore.users
  pub sessions : Dict Session  -- SessionStore.sessions

abbrev pub object_at : List User → ℕ → Option User
object_at [] i = none
object_at (u ∷ us) zero = some u
object_at (u ∷ us) (suc i) = object_at us i

abbrev pub write_grants : List User → ℕ → List Grant → List User
write_grants [] i gs = []
write_grants (u ∷ us) zero gs = record u { grants = gs } ∷ us
write_grants (u ∷ us) (suc i) gs = u ∷ write_grants us i gs

-- `GrantStore.get`: the object's position
unfoldable pub get_user : String → AuthStores → Option ℕ
get_user id a = Dict.get id a.users

-- `GrantStore.put`, of a new object
unfoldable pub put_user : User → AuthStores → AuthStores
put_user user a = record a {
  objects = a.objects ++ user ∷ [];
  users = Dict.put user.id (length a.objects) a.users;
}

abbrev set_grants_at : Option ℕ → List Grant → AuthStores → AuthStores
set_grants_at none gs a = a
set_grants_at (some i) gs a = record a { objects = write_grants a.objects i gs }

-- `GrantStore.setGrants`
unfoldable pub set_grants : String → List Grant → AuthStores → AuthStores
set_grants id gs a = set_grants_at (Dict.get id a.users) gs a

-- the seed of the constructor
unfoldable pub seed_users : List User → AuthStores → AuthStores
unfolding put_user
seed_users [] a = a
seed_users (u ∷ us) a = seed_users us (put_user u a)

-- `SessionStore.create`
unfoldable pub create_session : String → String → Number → ℕ → AuthStores → Session × AuthStores
create_session id csrf now user a =
    let s : Session = record { id = id; user = user; csrf_token = csrf; created_at = now } in
    (s, record a { sessions = Dict.put id s a.sessions })

-- `SessionStore.get`: an empty id finds nothing.
unfoldable pub get_session : Option String → AuthStores → Option Session
get_session none a = none
get_session (some id) a = if id == "" then none else Dict.get id a.sessions

-- `SessionStore.destroy`
unfoldable pub destroy_session : Option String → AuthStores → AuthStores
destroy_session none a = a
destroy_session (some id) a =
    if id == "" then a else record a { sessions = Dict.remove id a.sessions }

pub data HttpMethod : Type 0 where
  get head options post put patch delete : HttpMethod

-- `["POST", "PUT", "PATCH", "DELETE"].includes(req.method)`
abbrev pub is_state_changing : HttpMethod → Bool
is_state_changing post = true
is_state_changing put = true
is_state_changing patch = true
is_state_changing delete = true
is_state_changing _ = false

-- `!token || token !== session.csrfToken` is false
abbrev pub has_csrf : Option String → Session → Bool
has_csrf none s = false
has_csrf (some token) s = if token == "" then false else token == s.csrf_token

-- `requireCsrf` calls `next`
unfoldable pub passes_csrf : HttpMethod → Option String → Session → Bool
passes_csrf method token s = if is_state_changing method then has_csrf token s else true
