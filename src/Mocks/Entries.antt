-- ===== src/Mocks/Entries.antt =====
-- `ListAuditEntries` of the mocked control plane: its filters, and the audit rows on the wire.
use regional_rate_limiter.Prelude.{
  ℕ, String, Bool, true, false, eqb, ◌&&◌, ◌||◌, Option, none, some, map, ◌==◌, keep, if◌then◌else◌,
}
use regional_rate_limiter.Prelude.Int.{pos}
use regional_rate_limiter.Js.{Number, int, less, text, number, Fields, field, end}
use regional_rate_limiter.Struct.{WireFields, object_to_struct}
use regional_rate_limiter.Validation.{LimitKey}
use regional_rate_limiter.Rpc.{RawAudit, value}
use regional_rate_limiter.Rpc.Backends.{Reply, reply, AuditRequest, Page}
use regional_rate_limiter.Mocks.Quotamgmt.{
  Row, Operation, insert, update, delete, AuditRow, Quotamgmt,
}

-- `{ ...key, limit_value, time_unit }`, as an object
abbrev pub row_fields : Row → Fields
row_fields r = field "service_name" (text r.key.service_name) (
    field "customer_id" (text r.key.customer_id) (
      field "rate_limit_id" (text r.key.rate_limit_id)
        (field "limit_value" (number r.limit_value) (field "time_unit" (text r.time_unit) end))))

abbrev operation_text : Operation → String
operation_text insert = "INSERT"
operation_text update = "UPDATE"
operation_text delete = "DELETE"

abbrev or_some : Option Row → Option Row → Option Row
or_some none b = b
or_some (some a) b = some a

abbrev is_id : ℕ → Number → Bool
is_id n (int (pos m)) = eqb n m
is_id n _ = false

-- `e.new_row ?? e.old_row`, of which a test holds
abbrev row_has : (Row → Bool) → AuditRow → Bool
row_has p e = elim (or_some e.new_row e.old_row) [ none ↦ false | some r ↦ p r ]

-- `e.config_id === Number(config_id)` under `Number(config_id) > 0`
abbrev has_config : Number → AuditRow → Bool
has_config n e = if less (int (pos 0)) n then is_id e.config_id n else true

abbrev has_key : Option LimitKey → AuditRow → Bool
has_key none e = true
has_key (some key) e =
    if key.customer_id == "" || key.rate_limit_id == ""
    then true
    else row_has
        (λ r. r.key.customer_id == key.customer_id && r.key.rate_limit_id == key.rate_limit_id) e

-- `deliver` is what the wire makes of a struct.
module _ (deliver : WireFields → WireFields) where
  abbrev wire_row : Option Row → Option WireFields
  wire_row none = none
  wire_row (some r) = some (deliver (object_to_struct (row_fields r)))

  abbrev pub wire_audit : AuditRow → RawAudit
  wire_audit e = record {
    audit_id = some (value (int (pos e.audit_id)));
    config_id = some (value (int (pos e.config_id)));
    operation = operation_text e.operation;
    old_row = wire_row e.old_row;
    new_row = wire_row e.new_row;
    changed_by = e.changed_by;
    changed_at = some e.changed_at;
  }

  unfoldable pub list_audit_entries :
      AuditRequest → Option String → Quotamgmt → Reply (Page RawAudit) × Quotamgmt
  list_audit_entries req actor g = (
    reply (record {
      items = map wire_audit (
          keep (has_key req.key) (
            keep (has_config req.config_id)
              (keep (row_has (λ r. r.key.service_name == req.service_name)) g.audit)));
      next_page_token = "";
    }),
    g,
  )
