-- ===== src/Browser/Audit.antt =====
-- quotaui/frontend/src/pages/AuditBrowser.tsx: the history of the limits.
use regional_rate_limiter.Prelude.{
  String, eqb, ◌&&◌, Bool, true, false, Option, none, some, List, [], if◌then◌else◌,
}
use regional_rate_limiter.Js.{
  Runtime, Value, Number, infinity, neg_infinity, int, frac, text, Fields, field, end,
}
use regional_rate_limiter.Prelude.Int.{eqb_ℤ}
use regional_rate_limiter.Rpc.{AuditView}
use regional_rate_limiter.Routes.{Payload, audit_body}
use regional_rate_limiter.Browser.{Server, Tab, on_answer, PageError}
use regional_rate_limiter.Browser.Api.{get_audit}
use regional_rate_limiter.Browser.Components.{FieldDiff, diff_rows}
use regional_rate_limiter.Browser.Limits.{or_undefined}

pub record AuditPage : Type 0 where
  pub service : String
  pub customer : String
  pub rlid : String
  pub changed_by : String
  pub operation : String
  pub entries : List AuditView
  pub error : Option PageError
  pub expanded : Option Number

abbrev pub audit_params : AuditPage → Fields
audit_params p = field "service_name" (text p.service) (
    field "customer_id" (or_undefined p.customer) (
      field "rate_limit_id" (or_undefined p.rlid) (
        field "changed_by" (or_undefined p.changed_by)
          (field "operation" (or_undefined p.operation) end))))

-- `res.entries`
abbrev pub entries_of : Payload → List AuditView
entries_of (audit_body es token) = es
entries_of _ = []

module _ {W : Type 0} (rt : Runtime) (server : Server W) where
  -- `search`
  unfoldable pub search : AuditPage → Tab W → AuditPage × Tab W
  search p t =
      let (a, t') = get_audit rt server (audit_params p) t in
      (
        on_answer a (λ body. record p { entries = entries_of body; error = none })
            (λ e. record p { error = some e; entries = [] }),
        t',
      )

-- `===` of two numbers
abbrev pub same_number : Number → Number → Bool
same_number infinity infinity = true
same_number neg_infinity neg_infinity = true
same_number (int a) (int b) = eqb_ℤ a b
same_number (frac a m) (frac b n) = eqb_ℤ a b && eqb m n
same_number _ _ = false

abbrev pub is_expanded : AuditPage → AuditView → Bool
is_expanded p e = elim p.expanded [ none ↦ false | some id ↦ same_number id e.audit_id ]

-- The button of an entry.
abbrev pub toggle : AuditView → AuditPage → AuditPage
toggle e p = record p { expanded = if is_expanded p e then none else some e.audit_id }

-- The diff of an entry, shown if the entry is expanded.
abbrev pub entry_diff : (Value → Option String) → AuditPage → AuditView → Option (List FieldDiff)
entry_diff stringify p e =
    if is_expanded p e then some (diff_rows stringify e.old_row e.new_row) else none
