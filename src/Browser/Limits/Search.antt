-- ===== src/Browser/Limits/Search.antt =====
-- What a search of the limits shows.
use regional_rate_limiter.Prelude.{
  String, not, false, List, none, some, [], ◌↔◌, ◌==◌, sym, ap, arith, Among, Among-keep,
  if◌then◌else◌, ◌≡◌, ◌≢◌, refl, ◌⊎◌, inl, inr, eq_of_ne, Bool-cases,
}
use regional_rate_limiter.Js.{Runtime, Value, text, undefined, Fields, field, end}
use regional_rate_limiter.Rpc.{LimitView}
use regional_rate_limiter.Routes.{Payload, limits_body}
use regional_rate_limiter.Browser.{
  Server, Tab, Answer, answered, refused, unreachable, PageError, api_error, fetch_error,
}
use regional_rate_limiter.Browser.Api.{get_limits, get_effective}
use regional_rate_limiter.Browser.Limits.{
  LimitsPage, Kind, all, defaults, overrides, search, listed, show_effective, search_params,
  is_defaults, or_undefined, limits_of, shown_of, wants_effective, page_key,
}

-- A text that may be left out.
abbrev pub named_text : String → Value
named_text s = if s == "" then undefined else text s

abbrev pub customer_of : Kind → String → Value
customer_of defaults customer = text "*"
customer_of _ customer = named_text customer

-- What the page asks for: the limits of its service and, if it names one, of its limit id; for
-- defaults, of the customer '*', otherwise of its customer, if it names one.
abbrev pub question : LimitsPage → Fields
question p = field "service_name" (text p.service) (
    field "customer_id" (customer_of p.kind p.customer)
      (field "rate_limit_id" (named_text p.rlid) end))

-- The answer has this row.
abbrev pub IsRow : Payload → LimitView → Type 0
IsRow (limits_body rows token) r = Among r rows
IsRow _ r = ⊥

-- The row is wanted: all are, unless overrides are.
abbrev pub IsWanted : Kind → LimitView → Type 0
IsWanted overrides r = r.is_default ≡ false
IsWanted _ r = Unit

shown_exact :
    (k : Kind) (rows : List LimitView) (r : LimitView)
    → Among r (shown_of k rows) ↔ (Among r rows × IsWanted k r)
shown_exact overrides rows r =
    let thinned = Among-keep (λ (l : LimitView). not l.is_default) r rows in
    (
      λ h. ((thinned.0 h).0, ground (arith, (thinned.0 h).1)),
      λ h. thinned.1 (h.0, ground (arith, h.1)),
    )
shown_exact all rows r = (λ h. (h, tt), λ h. h.0)
shown_exact defaults rows r = (λ h. (h, tt), λ h. h.0)

rows_exact :
    (k : Kind) (body : Payload) (r : LimitView)
    → Among r (shown_of k (limits_of body)) ↔ (IsRow body r × IsWanted k r)
rows_exact k (limits_body rows token) r = shown_exact k rows r
rows_exact k _ r = shown_exact k [] r

customer_lem :
    (k : Kind) (customer : String)
    → (if is_defaults k then text "*" else or_undefined customer) ≡ customer_of k customer
customer_lem all customer = refl
customer_lem defaults customer = refl
customer_lem overrides customer = refl

question_lem : (p : LimitsPage) → search_params p ≡ question p
question_lem p =
    ap
      (λ v.
        field "service_name" (text p.service)
          (field "customer_id" v (field "rate_limit_id" (named_text p.rlid) end)))
      (customer_lem p.kind p.customer)

-- The page after a search: an error and no rows, or the rows of the answer, of the kind that is
-- chosen, and no error.
pub data Shows {W : Type 0} (rt : Runtime) (server : Server W) (p : LimitsPage) (t : Tab W)
    (p' : LimitsPage) : Type 0 where
  fails :
      (e : PageError)
      → p'.error ≡ some e
      → p'.limits ≡ []
      → p'.effective ≡ p.effective
      → Shows rt server p t p'
  lists :
      (body : Payload)
      → (get_limits rt server (question p) t).0 ≡ answered body
      → p'.error ≡ none
      → ((r : LimitView) → Among r p'.limits ↔ (IsRow body r × IsWanted p.kind r))
      → ((p'.effective ≡ none)
          ⊎ ((hint : Payload) × ((get_effective rt server
                  (page_key p)
                  (get_limits rt server (question p) t).1).0
                ≡ answered hint)
              × (p'.effective ≡ some hint)))
      → Shows rt server p t p'

module _ {W : Type 0} (rt : Runtime) (server : Server W) where
  -- The second call, after an answer to the first.
  effective_Shows :
      (p : LimitsPage) (t t' : Tab W) (body : Payload) (a : Answer)
      → (get_limits rt server (question p) t).0 ≡ answered body
      → (get_limits rt server (question p) t).1 ≡ t'
      → (get_effective rt server (page_key p) t').0 ≡ a
      → Shows rt server p t
          (show_effective rt server
            (record p { error = none; limits = shown_of p.kind (limits_of body) })
            t').0
  unfolding show_effective
  effective_Shows p t t' body (answered hint) first next second =
      elim (Bool-cases (wants_effective p)) [
        | inl wanted ↦
            rw (wanted, show_effective)
              (rw second
                (lists body first refl (rows_exact p.kind body) (inr (hint, rw next second, refl))))
        | inr plain ↦
            rw (plain, show_effective) (lists body first refl (rows_exact p.kind body) (inl refl))
      ]
  effective_Shows p t t' body (refused e) first next second =
      elim (Bool-cases (wants_effective p)) [
        | inl wanted ↦ rw (wanted, show_effective) (rw second (fails (api_error e) refl refl refl))
        | inr plain ↦
            rw (plain, show_effective) (lists body first refl (rows_exact p.kind body) (inl refl))
      ]
  effective_Shows p t t' body (unreachable m) first next second =
      elim (Bool-cases (wants_effective p)) [
        | inl wanted ↦
            rw (wanted, show_effective) (rw second (fails (fetch_error m) refl refl refl))
        | inr plain ↦
            rw (plain, show_effective) (lists body first refl (rows_exact p.kind body) (inl refl))
      ]

  listed-Shows :
      (p : LimitsPage) (t t' : Tab W) (a : Answer)
      → (get_limits rt server (question p) t).0 ≡ a
      → (get_limits rt server (question p) t).1 ≡ t'
      → Shows rt server p t (listed rt server (record p { error = none }) a t').0
  listed-Shows p t t' (answered body) first next = effective_Shows p t t' body _ first next refl
  listed-Shows p t t' (refused e) first next = fails (api_error e) refl refl refl
  listed-Shows p t t' (unreachable m) first next = fails (fetch_error m) refl refl refl

  -- Whatever the server answers, a search for a named service shows an error and no rows, or no error
  -- and just the rows of the answer to its question, less the defaults if overrides are chosen. The
  -- question is for the limits of that service, of the limit id that is typed in, if one is, and of
  -- the customer '*' if defaults are chosen, else of the customer that is typed in, if one is. A hint on the limit in force is then
  -- the answer to the page's own question, or there is none; after an error, an earlier hint stays.
  pub search-Shows :
      (p : LimitsPage) (t : Tab W) → p.service ≢ "" → Shows rt server p t (search rt server p t).0
  unfolding search
  search-Shows p t named =
      rw (eq_of_ne p.service "" named, search)
        (listed-Shows p t _ _ (ap (λ q. (get_limits rt server q t).0) (sym (question_lem p)))
          (ap (λ q. (get_limits rt server q t).1) (sym (question_lem p))))
