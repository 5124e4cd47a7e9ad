-- ===== src/Rbac.antt =====
-- quotaui/bff/src/rbac.ts: roles, grants, capabilities and the decision function `authorize`.
-- An optional `service` is an `Option String`; the empty text is falsy, as in JavaScript.
pub mod Matrix
pub mod Editable
pub mod Mirror
use regional_rate_limiter.Prelude.{
  ℕ, String, Bool, true, false, not, ◌&&◌, Option, none, some, List, [], ◌∷◌, map, ◌==◌, leb, any,
  keep, if◌then◌else◌,
}
use Prim.Native.String.{◌++◌}

pub data Role : Type 0 where
  viewer service_editor operator admin : Role

pub record Grant : Type 0 where
  pub role : Role
  pub service : Option String

pub record User : Type 0 where
  pub id : String
  pub email : String
  pub grants : List Grant

pub data Capability : Type 0 where
  limits_read usage_read audit_read observability_read : Capability
  limit_write limit_delete service_create service_edit : Capability
  op_refund op_reset review_approve rbac_manage : Capability

pub record Policy : Type 0 where
  pub allow_service_editor_create_service : Bool

abbrev pub default_policy : Policy
default_policy = record { allow_service_editor_create_service = false }

pub record AuthzResult : Type 0 where
  pub ok : Bool
  pub reason : Option String

-- `!s` for an optional text
abbrev pub is_blank : Option String → Bool
is_blank none = true
is_blank (some s) = s == ""

-- `s === t` for an optional text on the left
abbrev pub is_text : Option String → String → Bool
is_text none t = false
is_text (some s) t = s == t

abbrev pub is_service_editor : Role → Bool
is_service_editor service_editor = true
is_service_editor _ = false

abbrev pub rank : Role → ℕ
rank viewer = 0
rank service_editor = 1
rank operator = 2
rank admin = 3

unfoldable pub has_global_role : List Grant → Role → Bool
has_global_role grants role = any (λ g. is_blank g.service && leb (rank role) (rank g.role)) grants

unfoldable pub is_global_operator_or_admin : User → Bool
is_global_operator_or_admin user = has_global_role user.grants operator

abbrev pub edits : String → Grant → Bool
edits service g = is_service_editor g.role && is_text g.service service

unfoldable pub can_edit_service : User → String → Bool
can_edit_service user service =
    if is_global_operator_or_admin user then true else any (edits service) user.grants

-- `new Set(xs)`: the first of equal texts stays.
unfoldable pub distinct_from : List String → List String → List String
distinct_from seen [] = []
distinct_from seen (x ∷ xs) =
    let old = distinct_from seen xs in
    let new = x ∷ distinct_from (x ∷ seen) xs in if any (λ y. y == x) seen then old else new

abbrev pub service_of : Grant → String
service_of g = elim g.service [ none ↦ "" | some s ↦ s ]

abbrev pub is_scoped_editor : Grant → Bool
is_scoped_editor g = is_service_editor g.role && not (is_blank g.service)

unfoldable pub editable_services : User → List String
unfolding distinct_from
editable_services user = distinct_from [] (map service_of (keep is_scoped_editor user.grants))

abbrev pub allow : AuthzResult
allow = record { ok = true; reason = none }

abbrev pub deny : String → AuthzResult
deny why = record { ok = false; reason = some why }

-- `limit:write`, `limit:delete` and `service:edit`
unfoldable pub authorize_edit : User → Option String → AuthzResult
authorize_edit user none = deny "service required"
authorize_edit user (some service) =
    if service == ""
    then deny "service required"
    else if can_edit_service user service
    then allow
    else deny ("not an editor of " ++ service)

-- the second test of `service:create`
abbrev pub may_create : User → Option String → Policy → Bool
may_create user none policy = false
may_create user (some service) policy =
    policy.allow_service_editor_create_service
    && (not (service == "") && can_edit_service user service)

unfoldable pub authorize_create : User → Option String → Policy → AuthzResult
authorize_create user service policy =
    if is_global_operator_or_admin user
    then allow
    else if may_create user service policy
    then allow
    else deny "service creation is gated to operator/admin"

abbrev pub has_grants : List Grant → Bool
has_grants [] = false
has_grants (g ∷ gs) = true

unfoldable pub authorize_read : User → AuthzResult
authorize_read user = if has_grants user.grants then allow else deny "no roles"

unfoldable pub authorize_operate : User → AuthzResult
authorize_operate user =
    if is_global_operator_or_admin user then allow else deny "requires operator/admin"

unfoldable pub authorize : User → Capability → Option String → Policy → AuthzResult
unfolding authorize_edit authorize_create authorize_read authorize_operate
authorize user limits_read service policy = authorize_read user
authorize user usage_read service policy = authorize_read user
authorize user audit_read service policy = authorize_read user
authorize user observability_read service policy = authorize_read user
authorize user limit_write service policy = authorize_edit user service
authorize user limit_delete service policy = authorize_edit user service
authorize user service_edit service policy = authorize_edit user service
authorize user service_create service policy = authorize_create user service policy
authorize user op_refund service policy = authorize_operate user
authorize user op_reset service policy = authorize_operate user
authorize user review_approve service policy = authorize_operate user
authorize user rbac_manage service policy =
    if has_global_role user.grants admin then allow else deny "requires admin"
