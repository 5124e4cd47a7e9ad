-- ===== src/Routes/Audit/Filters.antt =====
-- Which entries the audit route lists.
use regional_rate_limiter.Prelude.{
  ◌&&◌, String, Option, none, some, List, [], ◌∷◌, ◌≡◌, ◌≢◌, ◌↔◌, ◌⊎◌, inl, inr, refl, sym, ap,
  arith, ◌==◌, eq_iff, eq_of_ne, Any, Bool-cases, Among, Among-keep, if◌then◌else◌,
}
use regional_rate_limiter.Js.{Runtime, Value, Fields, property, truthy, to_text, query_number}
use regional_rate_limiter.Rbac.{User, audit_read}
use regional_rate_limiter.Rpc.{
  AuditView, RawAudit, Converted, converted, failed, audit_at, both, timestamp_to_iso,
  to_audit_view, to_audit_views,
}
use regional_rate_limiter.Rpc.Backends.{Reply, reply, Page, AuditRequest}
use regional_rate_limiter.World.{World, done, pure, convert, ◌>>=◌, call}
use regional_rate_limiter.Routes.{
  AppDeps, guard, respond, audit_body, text_or_empty, query_text, token_or_null,
}
use regional_rate_limiter.Routes.Allowed.{May}
use regional_rate_limiter.Routes.Audit.{
  filter_by, list_audit_route, audit_named, iso_to_timestamp, query_operation,
}

-- The text is wanted: no text is asked for, or this one.
abbrev pub Wanted : String → String → Type 0
Wanted wanted s = (wanted ≡ "") ⊎ (s ≡ wanted)

Among-filter_by :
    (wanted : String) (shown : AuditView → String) (e : AuditView) (es : List AuditView)
    → Among e (filter_by wanted shown es) ↔ (Among e es × Wanted wanted (shown e))
Among-filter_by wanted shown e es = elim (Bool-cases (wanted == "")) [
  | inl blank ↦ rw blank (λ h. (h, inl ((eq_iff wanted "").0 blank)), λ h. h.0)
  | inr named ↦
      let rest = Among-keep (λ x. shown x == wanted) e es in
      rw named (
        λ h. ((rest.0 h).0, inr ((eq_iff (shown e) wanted).0 (rest.0 h).1)),
        λ h. rest.1 (
          h.0,
          elim h.1 [
            | inl blank ↦ absurd (ground (arith, (eq_iff wanted "").1 blank))
            | inr same ↦ (eq_iff (shown e) wanted).1 same
          ],
        ),
      )
]

eq_of_converted : {A : Type 0} (a b : A) → converted a ≡ converted b → a ≡ b
eq_of_converted a b h = cc

-- The entry has the operation and the author of this one.
abbrev pub IsSent : AuditView → RawAudit → Type 0
IsSent e x = (e.operation ≡ x.operation) × (e.changed_by ≡ x.changed_by)

module _ (rt : Runtime) where
  -- What the query asks for, as a text and then as `read` reads it; nothing is the empty text.
  abbrev pub asked : Value → (String → String) → String
  asked v read = if truthy v then read (to_text rt v) else ""

  converted-IsSent : (x : RawAudit) (v : AuditView) → to_audit_view rt x ≡ converted v → IsSent v x
  unfolding to_audit_view
  converted-IsSent x v h = of_time (timestamp_to_iso rt x.changed_at) h
    where
      of_time : (time : Converted (Option String)) → audit_at rt x time ≡ converted v → IsSent v x
      of_time (failed m) e = absurd (ground arith)
      of_time (converted at) e =
          let same = eq_of_converted _ v e in
          (
            ap (λ (v : AuditView). v.operation) (sym same),
            ap (λ (v : AuditView). v.changed_by) (sym same),
          )

  entries-IsSent :
      (xs : List RawAudit) (vs : List AuditView) (e : AuditView)
      → to_audit_views rt xs ≡ converted vs
      → Among e vs
      → Any (IsSent e) xs
  unfolding to_audit_views
  entries-IsSent [] vs e h there = absurd (rw (← eq_of_converted [] vs h) at there)
  entries-IsSent (x ∷ xs) vs e h there =
      of_both (to_audit_view rt x) (to_audit_views rt xs) refl refl h (λ us. entries-IsSent xs us e)
    where
      of_both :
          (c : Converted AuditView) (cs : Converted (List AuditView))
          → to_audit_view rt x ≡ c
          → to_audit_views rt xs ≡ cs
          → both rt c cs ≡ converted vs
          → ((us : List AuditView)
              → to_audit_views rt xs ≡ converted us
              → Among e us
              → Any (IsSent e) xs)
          → Any (IsSent e) (x ∷ xs)
      of_both (failed m) cs p q r rest = absurd (ground arith)
      of_both (converted v) (failed m) p q r rest = absurd (ground arith)
      of_both (converted v) (converted us) p q r rest =
          elim (rw (← eq_of_converted (v ∷ us) vs r) at there) [
            | inl same ↦ inl (rw (← same) (converted-IsSent x v p))
            | inr later ↦ inr (rest us q later)
          ]

module _ {S : Type 0} (rt : Runtime) (deps : AppDeps S) (user : User) where
  -- The history of a service, for a user who may read it: the control plane is asked for the
  -- entries of that service, of the query's customer and rate limit id if the query has both, with
  -- the query's config id, page, and time, as `iso_to_timestamp` converts it, and no actor. If it
  -- answers with entries that can be converted, the answer is 200; it lists a converted entry
  -- exactly if its author is the one the query asks for and its operation the one the query asks
  -- for, read in upper case, where the query asks for one; every entry listed has the operation and
  -- the author of one that the control plane has sent; and nothing is logged.
  pub list_audit_exact :
      (query : Fields) (w : World S)
      (f : AuditRequest → Option String → S → Reply (Page RawAudit) × S) (page : Page RawAudit)
      (s : S) (entries : List AuditView)
      → let name = text_or_empty rt (property "service_name" query) in
        name ≢ ""
        → May user deps.policy audit_read (some name)
        → deps.backends.list_audit_entries ≡ some f
        → f
            (record {
              service_name = name;
              key =
                  if truthy (property "customer_id" query)
                    && truthy (property "rate_limit_id" query)
                  then some (record {
                    service_name = name;
                    customer_id = to_text rt (property "customer_id" query);
                    rate_limit_id = to_text rt (property "rate_limit_id" query);
                  })
                  else none;
              config_id = query_number rt (property "config_id" query);
              since = iso_to_timestamp rt (query_text rt (property "since" query));
              page_size = query_number rt (property "page_size" query);
              page_token = query_text rt (property "page_token" query);
            })
            none
            w.backend
          ≡ (reply page, s)
        → to_audit_views rt page.items ≡ converted entries
        → let (answer, w') = list_audit_route rt deps user query w in
          (listed : List AuditView) × (answer
            ≡ done (respond 200 (audit_body listed (token_or_null page.next_page_token))))
          × ((e : AuditView)
              → Among e listed ↔ (
                  Among e entries
                  × Wanted (asked rt (property "changed_by" query) (λ s. s)) e.changed_by
                  × Wanted (asked rt (property "operation" query) rt.upper_case) e.operation))
          × ((e : AuditView) → Among e listed → Any (IsSent e) page.items)
          × (w'.log ≡ w.log)
  unfolding list_audit_route audit_named guard call convert pure ◌>>=◌
  list_audit_exact query w f page s entries named may method works shown =
      rw (eq_of_ne _ "" named) (
        rw may (
          rw method (
            rw works (
              rw shown (
                _,
                refl,
                λ e.
                    let by_operation =
                      Among-filter_by (query_operation rt (property "operation" query))
                        (λ x. x.operation) e _ in
                    let by_author =
                      Among-filter_by (query_text rt (property "changed_by" query))
                        (λ x. x.changed_by) e entries in
                    (
                      λ h. (
                        (by_author.0 (by_operation.0 h).0).0,
                        (by_author.0 (by_operation.0 h).0).1,
                        (by_operation.0 h).1,
                      ),
                      λ h. by_operation.1 (by_author.1 (h.0, h.1), h.2),
                    ),
                λ e h.
                    let kept =
                      (Among-filter_by (query_operation rt (property "operation" query))
                          (λ x. x.operation) e _).0
                        h in
                    let own =
                      (Among-filter_by (query_text rt (property "changed_by" query))
                          (λ x. x.changed_by) e entries).0
                        kept.0 in
                    entries-IsSent rt page.items entries e shown own.0,
                refl,
              )))))
