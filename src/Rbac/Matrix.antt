-- ===== src/Rbac/Matrix.antt =====
-- The permissions as rules, and `authorize` decides them.
use regional_rate_limiter.Prelude.{
  String, true, Option, none, some, List, [], ◌≡◌, ◌≢◌, refl, ◌↔◌, ◌⊎◌, inl, inr, arith, eq_iff,
  Bool-cases, ◌&&◌, leb, any, Any, any→Any, Any→any,
}
use regional_rate_limiter.Rbac.{
  rank, is_text, is_service_editor, Role, service_editor, operator, admin, Grant, User, Policy,
  is_blank, edits, has_global_role, is_global_operator_or_admin, can_edit_service, authorize,
  authorize_edit, authorize_create, authorize_read, authorize_operate, Capability, limits_read,
  usage_read, audit_read, observability_read, limit_write, limit_delete, service_create,
  service_edit, op_refund, op_reset, review_approve, rbac_manage,
}

pub data IsRead : Capability → Type 0 where
  limits : IsRead limits_read
  usage : IsRead usage_read
  audit : IsRead audit_read
  observability : IsRead observability_read

pub data IsEdit : Capability → Type 0 where
  write : IsEdit limit_write
  delete : IsEdit limit_delete
  edit : IsEdit service_edit

pub data IsOperate : Capability → Type 0 where
  refund : IsOperate op_refund
  reset : IsOperate op_reset
  approve : IsOperate review_approve
  create : IsOperate service_create

abbrev pub IsUnscoped : Grant → Type 0
IsUnscoped g = (g.service ≡ none) ⊎ (g.service ≡ some "")

abbrev pub IsAdmin : Grant → Type 0
IsAdmin g = IsUnscoped g × (g.role ≡ admin)

abbrev pub IsOperator : Grant → Type 0
IsOperator g = IsUnscoped g × ((g.role ≡ operator) ⊎ (g.role ≡ admin))

abbrev pub Edits : String → Grant → Type 0
Edits s g = (g.role ≡ service_editor) × (g.service ≡ some s)

-- Who may do what. A read needs some grant, on whichever service; an edit of a service, or of its
-- limits, an operator or an editor of that very service.
pub data Permits (u : User) (p : Policy) (c : Capability) (service : Option String) : Type 0 where
  reader : IsRead c → u.grants ≢ [] → Permits u p c service
  editor :
      (s : String)
      → service ≡ some s
      → IsEdit c
      → s ≢ ""
      → Any IsOperator u.grants ⊎ Any (Edits s) u.grants
      → Permits u p c service
  operates : IsOperate c → Any IsOperator u.grants → Permits u p c service
  creates :
      (s : String)
      → service ≡ some s
      → c ≡ service_create
      → p.allow_service_editor_create_service ≡ true
      → s ≢ ""
      → Any (Edits s) u.grants
      → Permits u p c service
  manages : c ≡ rbac_manage → Any IsAdmin u.grants → Permits u p c service

is_blank_iff : (o : Option String) → (is_blank o ≡ true) ↔ ((o ≡ none) ⊎ (o ≡ some ""))
is_blank_iff none = ground arith
is_blank_iff (some s) = ground (arith, eq_iff s "")

operator_test :
    (g : Grant) → ((is_blank g.service && leb (rank operator) (rank g.role)) ≡ true) ↔ IsOperator g
operator_test g = ground (arith, is_blank_iff g.service)

admin_test :
    (g : Grant) → ((is_blank g.service && leb (rank admin) (rank g.role)) ≡ true) ↔ IsAdmin g
admin_test g = ground (arith, is_blank_iff g.service)

edits_test : (s : String) (g : Grant) → (edits s g ≡ true) ↔ Edits s g
edits_test s g = is_text_case g.role g.service
  where
    is_text_case :
        (r : Role) (o : Option String)
        → ((is_service_editor r && is_text o s) ≡ true) ↔ ((r ≡ service_editor) × (o ≡ some s))
    is_text_case r none = ground arith
    is_text_case r (some t) = ground (arith, eq_iff t s)

operator_iff : (gs : List Grant) → (has_global_role gs operator ≡ true) ↔ Any IsOperator gs
unfolding has_global_role
operator_iff gs = (
  any→Any _ IsOperator (λ g. (operator_test g).0) gs,
  Any→any _ IsOperator (λ g. (operator_test g).1) gs,
)

admin_iff : (gs : List Grant) → (has_global_role gs admin ≡ true) ↔ Any IsAdmin gs
unfolding has_global_role
admin_iff gs =
    (any→Any _ IsAdmin (λ g. (admin_test g).0) gs, Any→any _ IsAdmin (λ g. (admin_test g).1) gs)

editor_iff : (s : String) (gs : List Grant) → (any (edits s) gs ≡ true) ↔ Any (Edits s) gs
editor_iff s gs = (
  any→Any _ (Edits s) (λ g. (edits_test s g).0) gs,
  Any→any _ (Edits s) (λ g. (edits_test s g).1) gs,
)

-- A service may be edited by a global operator or admin, and by its own editors.
pub can_edit_service_iff :
    (u : User) (s : String)
    → (can_edit_service u s ≡ true) ↔ (Any IsOperator u.grants ⊎ Any (Edits s) u.grants)
unfolding can_edit_service is_global_operator_or_admin
can_edit_service_iff u s = ground (arith, operator_iff u.grants, editor_iff s u.grants)

abbrev MayEdit : User → Option String → Type 0
MayEdit u service =
    (s : String) × (service ≡ some s)
    × (s ≢ "")
    × (Any IsOperator u.grants ⊎ Any (Edits s) u.grants)

authorize_edit_sound :
    (u : User) (service : Option String) → (authorize_edit u service).ok ≡ true → MayEdit u service
unfolding authorize_edit
authorize_edit_sound u none h = cc
authorize_edit_sound u (some s) h =
    (s, refl, ground (arith, eq_iff s ""), (can_edit_service_iff u s).0 (ground arith))

authorize_edit_complete :
    (u : User) (service : Option String) → MayEdit u service → (authorize_edit u service).ok ≡ true
unfolding authorize_edit
authorize_edit_complete u service (s, e, ne, may) =
    rw e (ground (arith, eq_iff s "", (can_edit_service_iff u s).1 may))

abbrev MayCreate : User → Option String → Policy → Type 0
MayCreate u service p =
    (s : String) × (service ≡ some s)
    × (p.allow_service_editor_create_service ≡ true)
    × (s ≢ "")
    × Any (Edits s) u.grants

authorize_create_sound :
    (u : User) (service : Option String) (p : Policy)
    → (authorize_create u service p).ok ≡ true
    → Any IsOperator u.grants ⊎ MayCreate u service p
unfolding authorize_create is_global_operator_or_admin
authorize_create_sound u none p h = inl ((operator_iff u.grants).0 (ground arith))
authorize_create_sound u (some s) p h = elim (Bool-cases (has_global_role u.grants operator)) [
  | inl yes_op ↦ inl ((operator_iff u.grants).0 yes_op)
  | inr no_op ↦ inr (
    s,
    refl,
    ground arith,
    ground (arith, eq_iff s ""),
    ground (arith, can_edit_service_iff u s, operator_iff u.grants),
  )
]

authorize_create_complete :
    (u : User) (service : Option String) (p : Policy)
    → Any IsOperator u.grants ⊎ MayCreate u service p
    → (authorize_create u service p).ok ≡ true
unfolding authorize_create is_global_operator_or_admin
authorize_create_complete u service p (inl op) = rw ((operator_iff u.grants).1 op) refl
authorize_create_complete u service p (inr (s, e, allowed, ne, edits_s)) =
    rw e (ground (arith, eq_iff s "", (can_edit_service_iff u s).1 (inr edits_s)))

read_sound : (u : User) → (authorize_read u).ok ≡ true → u.grants ≢ []
unfolding authorize_read
read_sound u h = ground arith

read_complete : (u : User) → u.grants ≢ [] → (authorize_read u).ok ≡ true
unfolding authorize_read
read_complete u h = ground arith

operate_iff : (u : User) → ((authorize_operate u).ok ≡ true) ↔ Any IsOperator u.grants
unfolding authorize_operate is_global_operator_or_admin
operate_iff u = ground (arith, operator_iff u.grants)

module _ (u : User) (s : Option String) (p : Policy) where
  edit-Permits : {c : Capability} → IsEdit c → (authorize_edit u s).ok ≡ true → Permits u p c s
  edit-Permits k h = let (t, e, ne, may) = authorize_edit_sound u s h in editor t e k ne may

  create-Permits : (authorize_create u s p).ok ≡ true → Permits u p service_create s
  create-Permits h = elim (authorize_create_sound u s p h) [
    | inl op ↦ operates create op
    | inr (t, e, allowed, ne, own) ↦ creates t e refl allowed ne own
  ]

  authorize_sound : (c : Capability) → (authorize u c s p).ok ≡ true → Permits u p c s
  unfolding authorize
  authorize_sound limits_read h = reader limits (read_sound u h)
  authorize_sound usage_read h = reader usage (read_sound u h)
  authorize_sound audit_read h = reader audit (read_sound u h)
  authorize_sound observability_read h = reader observability (read_sound u h)
  authorize_sound limit_write h = edit-Permits write h
  authorize_sound limit_delete h = edit-Permits delete h
  authorize_sound service_edit h = edit-Permits edit h
  authorize_sound service_create h = create-Permits h
  authorize_sound op_refund h = operates refund ((operate_iff u).0 h)
  authorize_sound op_reset h = operates reset ((operate_iff u).0 h)
  authorize_sound review_approve h = operates approve ((operate_iff u).0 h)
  authorize_sound rbac_manage h = manages refl ((admin_iff u.grants).0 (ground arith))

  reader_allowed : (c : Capability) → IsRead c → u.grants ≢ [] → (authorize u c s p).ok ≡ true
  unfolding authorize
  reader_allowed c limits h = read_complete u h
  reader_allowed c usage h = read_complete u h
  reader_allowed c audit h = read_complete u h
  reader_allowed c observability h = read_complete u h

  editor_allowed : (c : Capability) → IsEdit c → MayEdit u s → (authorize u c s p).ok ≡ true
  unfolding authorize
  editor_allowed c write h = authorize_edit_complete u s h
  editor_allowed c delete h = authorize_edit_complete u s h
  editor_allowed c edit h = authorize_edit_complete u s h

  operator_allowed :
      (c : Capability) → IsOperate c → Any IsOperator u.grants → (authorize u c s p).ok ≡ true
  unfolding authorize
  operator_allowed c refund h = (operate_iff u).1 h
  operator_allowed c reset h = (operate_iff u).1 h
  operator_allowed c approve h = (operate_iff u).1 h
  operator_allowed c create h = authorize_create_complete u s p (inl h)

  creator_allowed : MayCreate u s p → (authorize u service_create s p).ok ≡ true
  unfolding authorize
  creator_allowed h = authorize_create_complete u s p (inr h)

  manager_allowed : Any IsAdmin u.grants → (authorize u rbac_manage s p).ok ≡ true
  unfolding authorize
  manager_allowed h = rw ((admin_iff u.grants).1 h) refl

  authorize_complete : (c : Capability) → Permits u p c s → (authorize u c s p).ok ≡ true
  authorize_complete c (reader k h) = reader_allowed c k h
  authorize_complete c (editor t e k ne may) = editor_allowed c k (t, e, ne, may)
  authorize_complete c (operates k h) = operator_allowed c k h
  authorize_complete c (creates t e same allowed ne own) =
      rw same (creator_allowed (t, e, allowed, ne, own))
  authorize_complete c (manages same h) = rw same (manager_allowed h)

-- For every user, capability, service and policy, `authorize` says yes exactly when one of these
-- rules permits it: a read for anyone with a grant, on whichever service; an edit of a named service
-- or its limits for an operator or admin, and for an editor of that service; a refund, a reset, an
-- approval or a creation for an operator or admin, and a creation of a named service also for an
-- editor of it, if the policy allows it; and the management of grants for an admin. Operators and
-- admins count only by a grant without a service.
pub authorize_iff :
    (u : User) (c : Capability) (s : Option String) (p : Policy)
    → ((authorize u c s p).ok ≡ true) ↔ Permits u p c s
authorize_iff u c s p = (authorize_sound u s p c, authorize_complete u s p c)
