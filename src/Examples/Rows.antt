-- ===== src/Examples/Rows.antt =====
-- The theorems on structs, at a concrete row, and on the history that is listed.
use regional_rate_limiter.Prelude.{
  String, true, Option, none, some, List, [], ◌≡◌, ◌≢◌, ◌↔◌, refl, arith, eq_iff, Among, Any,
}
use regional_rate_limiter.Prelude.Int.{pos}
use regional_rate_limiter.Js.{int, number, text, undefined, Fields, end, field}
use regional_rate_limiter.Js.{property, to_text, less, query_number, truthy}
use regional_rate_limiter.Rbac.{audit_read, authorize}
use regional_rate_limiter.Rpc.{
  RawAudit, AuditView, to_audit_view, timestamp_to_iso, Converted, to_audit_views, converted,
  failed,
}
use regional_rate_limiter.Rpc.Backends.{AuditRequest, Reply, reply, failure, Page}
use regional_rate_limiter.World.{World, done}
use regional_rate_limiter.Routes.{respond, audit_body, text_or_empty, token_or_null}
use regional_rate_limiter.Routes.Allowed.{May}
use regional_rate_limiter.Routes.Audit.{audit_request, list_audit_route}
use regional_rate_limiter.Routes.Audit.Filters.{asked, IsSent, Wanted, list_audit_exact}
use regional_rate_limiter.Mocks.{Mocks, mock_backends}
use regional_rate_limiter.Mocks.Entries.{list_audit_entries}
use regional_rate_limiter.Start.Dev.{seeded, seeded_mgmt, add_limits}
use regional_rate_limiter.Examples.{engine, deps, start, vic, unchanged, noon}
use regional_rate_limiter.Struct.{
  wire, null_value, number_value, string_value, WireFields, no_field, wire_field, js_to_value,
  object_to_struct, struct_to_object,
}
use regional_rate_limiter.Struct.Trip.{
  Delivered, DeliveredFields, nulled_fields, struct_to_object-Delivered,
}

abbrev row : Fields
row =
    field "limit_value" (number (int (pos 5)))
      (field "time_unit" (text "DAY") (field "note" undefined end))

abbrev received : WireFields
received = wire_field "limit_value" (wire true (number_value (int (pos 5)))) (
    wire_field "time_unit" (wire true (string_value "DAY"))
      (wire_field "note" (wire true null_value) no_field))

row_delivered : DeliveredFields (object_to_struct row) received
unfolding object_to_struct js_to_value DeliveredFields Delivered
row_delivered = (_, _, refl, refl, (_, _, refl, refl, (_, _, refl, refl, refl)))

struct_to_object-Delivered_example : struct_to_object received ≡ nulled_fields row
struct_to_object-Delivered_example = struct_to_object-Delivered row received row_delivered

-- The world of the sample data.
abbrev sampled : World Mocks
sampled = record start { backend = seeded noon }

abbrev query : Fields
query =
    field "service_name" (text "search-svc")
      (field "changed_by" (text "seed@anthropic.com") (field "operation" (text "INSERT") end))

abbrev mock_list : AuditRequest → Option String → Mocks → Reply (Page RawAudit) × Mocks
mock_list req actor m =
    let (r, g) = list_audit_entries unchanged req actor m.mgmt in (r, record m { mgmt = g })

-- The name of the service that the query asks for.
abbrev service_asked : String
service_asked = text_or_empty engine (property "service_name" query)

abbrev page_of : Reply (Page RawAudit) → Page RawAudit
page_of (reply p) = p
page_of (failure e) = record { items = []; next_page_token = "" }

abbrev page : Page RawAudit
page = page_of (mock_list (audit_request engine service_asked query) none sampled.backend).0

abbrev views_of : Converted (List AuditView) → List AuditView
views_of (converted es) = es
views_of (failed m) = []

abbrev entries : List AuditView
entries = views_of (to_audit_views engine page.items)

mock_lists : deps.backends.list_audit_entries ≡ some mock_list
unfolding mock_backends
mock_lists = refl

asked_named : service_asked ≢ ""
unfolding property to_text
asked_named e = ground (arith, (eq_iff "search-svc" "").1 e)

vic-May : May vic deps.policy audit_read (some service_asked)
unfolding authorize property to_text
vic-May = refl

page_sent :
    mock_list (audit_request engine service_asked query) none sampled.backend
    ≡ (reply page, sampled.backend)
unfolding list_audit_entries
page_sent = refl

entries_shown : to_audit_views engine page.items ≡ converted entries
unfolding list_audit_entries to_audit_views seeded seeded_mgmt add_limits property to_text less
    query_number truthy to_audit_view timestamp_to_iso
entries_shown = refl

list_audit_exact_example :
    let (answer, w') = list_audit_route engine deps vic query sampled in
    (listed : List AuditView) × (answer
      ≡ done (respond 200 (audit_body listed (token_or_null page.next_page_token))))
    × ((e : AuditView)
        → Among e listed ↔ (
            Among e entries
            × Wanted (asked engine (property "changed_by" query) (λ s. s)) e.changed_by
            × Wanted (asked engine (property "operation" query) engine.upper_case) e.operation))
    × ((e : AuditView) → Among e listed → Any (IsSent e) page.items)
    × (w'.log ≡ sampled.log)
list_audit_exact_example =
    list_audit_exact engine deps vic query sampled mock_list page sampled.backend entries
      asked_named vic-May mock_lists page_sent entries_shown
