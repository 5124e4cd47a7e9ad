-- ===== src/Rbac/Mirror.antt =====
-- quotaui/frontend/src/util/rbac.ts: the browser's mirror of the decision function, and how it
-- compares with the server's.
use regional_rate_limiter.Prelude.{
  String, Bool, true, false, ◌&&◌, Option, none, some, List, ◌≡◌, ◌≢◌, arith, ◌==◌, eq_iff, leb,
  or_else, any, if◌then◌else◌,
}
use regional_rate_limiter.Rbac
use regional_rate_limiter.Rbac.{
  Role, operator, admin, Grant, User, Policy, rank, is_blank, edits, has_grants,
  is_global_operator_or_admin, authorize,
}

-- The mirror has no `observability:read`.
pub data Capability : Type 0 where
  limits_read usage_read audit_read limit_write limit_delete service_create service_edit :
      Capability
  op_refund op_reset review_approve rbac_manage : Capability

unfoldable pub to_server : Capability → Rbac.Capability
to_server limits_read = Rbac.limits_read
to_server usage_read = Rbac.usage_read
to_server audit_read = Rbac.audit_read
to_server limit_write = Rbac.limit_write
to_server limit_delete = Rbac.limit_delete
to_server service_create = Rbac.service_create
to_server service_edit = Rbac.service_edit
to_server op_refund = Rbac.op_refund
to_server op_reset = Rbac.op_reset
to_server review_approve = Rbac.review_approve
to_server rbac_manage = Rbac.rbac_manage

unfoldable pub has_global_role : List Grant → Role → Bool
has_global_role grants role = any (λ g. is_blank g.service && leb (rank role) (rank g.role)) grants

unfoldable pub is_operator_or_admin : List Grant → Bool
unfolding has_global_role
is_operator_or_admin grants = has_global_role grants operator

unfoldable pub can_edit_service : List Grant → Option String → Bool
unfolding is_operator_or_admin
can_edit_service grants none = is_operator_or_admin grants
can_edit_service grants (some service) =
    if is_operator_or_admin grants
    then true
    else if service == ""
    then false
    else any (edits service) grants

-- `allowed` is `opts.allowServiceEditorCreateService`, which may be left out.
unfoldable pub can_do : List Grant → Capability → Option String → Option Bool → Bool
unfolding can_edit_service
can_do grants limits_read service allowed = has_grants grants
can_do grants usage_read service allowed = has_grants grants
can_do grants audit_read service allowed = has_grants grants
can_do grants limit_write service allowed = can_edit_service grants service
can_do grants limit_delete service allowed = can_edit_service grants service
can_do grants service_edit service allowed = can_edit_service grants service
can_do grants service_create service allowed =
    if is_operator_or_admin grants
    then true
    else or_else allowed false && can_edit_service grants service
can_do grants op_refund service allowed = is_operator_or_admin grants
can_do grants op_reset service allowed = is_operator_or_admin grants
can_do grants review_approve service allowed = is_operator_or_admin grants
can_do grants rbac_manage service allowed = has_global_role grants admin

-- On a named service the mirror answers what the server decides, for every capability, if both
-- run under the same creation policy.
pub can_do-authorize :
    (u : User) (c : Capability) (s : String) (allowed : Bool)
    → s ≢ ""
    → can_do u.grants c (some s) (some allowed)
      ≡ (authorize u
          (to_server c)
          (some s)
          (record { allow_service_editor_create_service = allowed })).ok
unfolding can_do authorize to_server Rbac.can_edit_service is_global_operator_or_admin
    has_global_role Rbac.has_global_role
can_do-authorize u limits_read s allowed ne = ground arith
can_do-authorize u c s allowed ne = ground (arith, eq_iff s "")

-- If it is given the creation policy of the server, the mirror never hides what the server would
-- allow, whatever service is named or left out.
pub can_do_of_authorize :
    (u : User) (c : Capability) (s : Option String) (p : Policy)
    → (authorize u (to_server c) s p).ok ≡ true
    → can_do u.grants c s (some p.allow_service_editor_create_service) ≡ true
unfolding can_do authorize to_server Rbac.can_edit_service is_global_operator_or_admin
    has_global_role Rbac.has_global_role
can_do_of_authorize u limits_read s p h = ground arith
can_do_of_authorize u c s p h = ground arith

-- With no service named, or the empty one, an operator or admin is shown an edit that the server refuses.
pub blank_service_diverges :
    (u : User) (s : Option String) (p : Policy) (allowed : Option Bool)
    → is_blank s ≡ true
    → is_operator_or_admin u.grants ≡ true
    → (can_do u.grants limit_write s allowed ≡ true)
      × ((authorize u (to_server limit_write) s p).ok ≡ false)
unfolding can_do authorize to_server
blank_service_diverges u none p allowed b op = ground arith
blank_service_diverges u (some s) p allowed b op = ground arith
