-- ===== src/Mocks/Refinement.antt =====
-- The calls on limits of the mocked control plane refine those of a table.
use regional_rate_limiter.Prelude.{
  String, true, Option, none, some, List, [], ◌∷◌, All, ◌≡◌, refl, sym, ◌∙◌, ap, arith, ◌==◌,
  eq_iff, eq_refl, eq_of_ne, Bool-cases, Option-cases, inl, inr,
}
use mathlib.Core.Option
use regional_rate_limiter.Prelude.Dict
use regional_rate_limiter.Prelude.Dict.{Dict, get-put, get-remove}
use regional_rate_limiter.Js.{Number}
use regional_rate_limiter.Validation.{LimitKey}
use regional_rate_limiter.Rpc.{Timestamp}
use regional_rate_limiter.Rpc.Backends.{
  CreateLimitRequest, UpdateLimitRequest, DeleteLimitRequest, GetLimitRequest,
}
use regional_rate_limiter.Mocks.Quotaenforcer.{map_key, actor_of}
use regional_rate_limiter.Mocks.Quotamgmt.{
  Quotamgmt, StoredLimit, write_audit, create_limit, insert_limit, update_limit, overwrite,
  delete_limit, get_limit, default_key, fallback,
}
use regional_rate_limiter.Mocks.Keys.{IsPlain, is_plain, map_key_inj}
use regional_rate_limiter.Mocks.Table.{
  Call, key_of, Outcome, answer, answers, Table, same_key, set, resolve_default, effect, spec,
  specs, setting, Represents, create, update, delete, read,
}

same_key_of : (j k : LimitKey) → j ≡ k → same_key j k ≡ true
same_key_of j k e =
    rw e (rw (eq_refl k.service_name, eq_refl k.customer_id, eq_refl k.rate_limit_id) refl)

eq_of_same_key : (j k : LimitKey) → same_key j k ≡ true → j ≡ k
eq_of_same_key j k h =
    let service : j.service_name ≡ k.service_name =
      ground (arith, eq_iff j.service_name k.service_name) in
    let customer : j.customer_id ≡ k.customer_id =
      ground (arith, eq_iff j.customer_id k.customer_id) in
    let limit_id : j.rate_limit_id ≡ k.rate_limit_id =
      ground (arith, eq_iff j.rate_limit_id k.rate_limit_id) in
    λ i. record { service_name = service i; customer_id = customer i; rate_limit_id = limit_id i }

same_key_of_eq : (j k : LimitKey) → IsPlain j → IsPlain k → same_key j k ≡ (map_key j == map_key k)
same_key_of_eq j k pj pk = elim (Bool-cases (same_key j k)) [
  | inl e ↦ e ∙ sym ((eq_iff _ _).1 (ap map_key (eq_of_same_key j k e)))
  | inr e ↦
      e
      ∙ sym (
          eq_of_ne _ _ (λ (same : map_key j ≡ map_key k).
            ground (arith, same_key_of j k (map_key_inj j k pj pk same))))
]

module _ {m : Dict StoredLimit} {t : Table} (h : Represents m t) (k : LimitKey)
    (pk : IsPlain k) where
  put-Represents :
      (l : StoredLimit) → Represents (Dict.put (map_key k) l m) (set k (some (setting l)) t)
  put-Represents l = record {
    at = λ j pj.
        rw (get-put (map_key k) (map_key j) l m, same_key_of_eq k j pk pj)
          (elim (Bool-cases (map_key k == map_key j)) [
            | inl e ↦ rw e refl
            | inr e ↦ rw e (h.at j pj)
          ]);
  }

  remove-Represents : Represents (Dict.remove (map_key k) m) (set k none t)
  remove-Represents = record {
    at = λ j pj.
        rw (get-remove (map_key k) (map_key j) m, same_key_of_eq k j pk pj)
          (elim (Bool-cases (map_key k == map_key j)) [
            | inl e ↦ rw e refl
            | inr e ↦ rw e (h.at j pj)
          ]);
  }

  at_none : Dict.get (map_key k) m ≡ none → t k ≡ none
  at_none e = sym (h.at k pk) ∙ ap (Option.map setting) e

  at_some : (l : StoredLimit) → Dict.get (map_key k) m ≡ some l → t k ≡ some (setting l)
  at_some l e = sym (h.at k pk) ∙ ap (Option.map setting) e

-- The outcomes are the same, and the store represents the table again.
abbrev Refines : Outcome × Quotamgmt → Outcome × Table → Type 0
Refines a b = (a.0 ≡ b.0) × Represents a.1.limits b.1

module _ (wire : Number → Number) (now_ts : Timestamp) (g : Quotamgmt) (t : Table)
    (h : Represents g.limits t) where
  create-Refines :
      (r : CreateLimitRequest) (actor : Option String)
      → IsPlain r.key
      → Refines (answer wire now_ts (create r) actor g) (spec wire (create r) actor t)
  unfolding answer create_limit insert_limit write_audit spec
  create-Refines r actor pk = elim (Bool-cases (actor_of actor == "")) [
    | inl blank ↦ rw blank (refl, h)
    | inr named ↦ rw named (elim (Option-cases (Dict.get (map_key r.key) g.limits)) [
      | inl e ↦ rw (e, effect, at_none h r.key pk e) (refl, put-Represents h r.key pk _)
      | inr (l, e) ↦ rw (e, effect, at_some h r.key pk l e) (refl, h)
    ])
  ]

  update-Refines :
      (r : UpdateLimitRequest) (actor : Option String)
      → IsPlain r.key
      → Refines (answer wire now_ts (update r) actor g) (spec wire (update r) actor t)
  unfolding answer update_limit insert_limit overwrite write_audit spec
  update-Refines r actor pk = elim (Bool-cases (actor_of actor == "")) [
    | inl blank ↦ rw blank (refl, h)
    | inr named ↦ rw named (elim (Option-cases (Dict.get (map_key r.key) g.limits)) [
      | inl e ↦
          rw (e, effect, at_none h r.key pk e)
            (elim (Bool-cases r.create_if_absent) [
              | inl c ↦ rw c (refl, put-Represents h r.key pk _)
              | inr c ↦ rw c (refl, h)
            ])
      | inr (l, e) ↦ rw (e, effect, at_some h r.key pk l e) (refl, put-Represents h r.key pk _)
    ])
  ]

  delete-Refines :
      (r : DeleteLimitRequest) (actor : Option String)
      → IsPlain r.key
      → Refines (answer wire now_ts (delete r) actor g) (spec wire (delete r) actor t)
  unfolding answer delete_limit write_audit spec
  delete-Refines r actor pk = elim (Bool-cases (actor_of actor == "")) [
    | inl blank ↦ rw blank (refl, h)
    | inr named ↦ rw named (elim (Option-cases (Dict.get (map_key r.key) g.limits)) [
      | inl e ↦
          rw (e, effect, at_none h r.key pk e)
            (elim (Bool-cases r.allow_missing) [ inl c ↦ rw c (refl, h) | inr c ↦ rw c (refl, h) ])
      | inr (l, e) ↦ rw (e, effect, at_some h r.key pk l e) (refl, remove-Represents h r.key pk)
    ])
  ]

  read-Refines :
      (r : GetLimitRequest) (actor : Option String)
      → IsPlain r.key
      → Refines (answer wire now_ts (read r) actor g) (spec wire (read r) actor t)
  unfolding answer get_limit spec is_plain
  read-Refines r actor pk = elim (Option-cases (Dict.get (map_key r.key) g.limits)) [
    | inr (l, e) ↦ rw (get_limit, e, effect, at_some h r.key pk l e) (refl, h)
    | inl e ↦
        rw (get_limit, e, effect, at_none h r.key pk e)
          (elim (Bool-cases r.resolve) [
            | inr c ↦ rw c (refl, h)
            | inl c ↦ rw c (elim (Option-cases (Dict.get (map_key (default_key r.key)) g.limits)) [
              | inl d ↦
                  rw (fallback, d, resolve_default, at_none h (default_key r.key) (pk.0, refl) d)
                    (refl, h)
              | inr (l, d) ↦
                  rw (fallback, d, resolve_default, at_some h (default_key r.key) (pk.0, refl) l d)
                    (refl, h)
            ])
          ])
  ]

  answer-Refines :
      (c : Call) (actor : Option String)
      → IsPlain (key_of c)
      → Refines (answer wire now_ts c actor g) (spec wire c actor t)
  answer-Refines (create r) = create-Refines r
  answer-Refines (update r) = update-Refines r
  answer-Refines (delete r) = delete-Refines r
  answer-Refines (read r) = read-Refines r

-- The mocked control plane refines a table from keys to settings: whatever calls on limits follow one
-- another, creations, updates, deletions and reads with or without the fallback to the '*' default,
-- their outcomes are those of the table, and the store represents the resulting table; if no service
-- or customer contains the separator "|".
pub answers_refine :
    (wire : Number → Number) (now_ts : Timestamp) (cs : List (Call × Option String)) (g : Quotamgmt)
    (t : Table)
    → All (λ c. IsPlain (key_of c.0)) cs
    → Represents g.limits t
    → ((answers wire now_ts cs g).0 ≡ (specs wire cs t).0)
      × Represents (answers wire now_ts cs g).1.limits (specs wire cs t).1
unfolding answers specs
answers_refine wire now_ts [] g t plain h = (refl, h)
answers_refine wire now_ts ((c, actor) ∷ cs) g t plain h =
    let (same, next) = answer-Refines wire now_ts g t h c actor plain.0 in
    let (sames, last) = answers_refine wire now_ts cs _ _ plain.1 next in
    (rw (same, sames) refl, last)
