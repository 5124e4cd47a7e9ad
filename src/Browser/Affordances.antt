-- ===== src/Browser/Affordances.antt =====
-- The buttons that the pages offer, against what the server decides.
use regional_rate_limiter.Prelude.{String, false, Option, none, some, ◌≡◌, ◌≢◌, refl, ◌∙◌}
use regional_rate_limiter.Rbac.{User, default_policy, authorize}
use regional_rate_limiter.Rbac.Mirror
use regional_rate_limiter.Rbac.Mirror.{
  Capability, can_do, to_server, can_do-authorize, is_operator_or_admin,
}
use regional_rate_limiter.Browser.Session.{Provider, SessionInfo, can}

-- A policy that is left out is the server's default one.
can_do-default :
    (u : User) (c : Capability) (s : Option String)
    → can_do u.grants c s none ≡ can_do u.grants c s (some false)
unfolding can_do
can_do-default u Mirror.limits_read s = refl
can_do-default u Mirror.usage_read s = refl
can_do-default u Mirror.audit_read s = refl
can_do-default u Mirror.limit_write s = refl
can_do-default u Mirror.limit_delete s = refl
can_do-default u Mirror.service_create s = refl
can_do-default u Mirror.service_edit s = refl
can_do-default u Mirror.op_refund s = refl
can_do-default u Mirror.op_reset s = refl
can_do-default u Mirror.review_approve s = refl
can_do-default u Mirror.rbac_manage s = refl

-- A button for a named service is offered exactly if the server, under its default policy, permits
-- the user what the button does.
pub can-authorize :
    (p : Provider) (info : SessionInfo) (u : User) (c : Capability) (s : String)
    → p.session ≡ some info
    → info.grants ≡ u.grants
    → s ≢ ""
    → can p c (some s) ≡ (authorize u (to_server c) (some s) default_policy).ok
unfolding can
can-authorize p info u c s known grants ne =
    rw (known, can) (rw grants (can_do-default u c (some s) ∙ can_do-authorize u c s false ne))
