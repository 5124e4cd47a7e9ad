-- ===== src/Mocks/Audit.antt =====
-- The audit of the mocked control plane: one row for each change of a limit, and ids that are never
-- used twice.
use regional_rate_limiter.Prelude.{
  ℕ, ◌+◌, ◌<◌, String, Option, none, some, List, [], ◌∷◌, ◌++◌, ◌≡◌, refl, sym, ◌∙◌, inl, inr,
  arith, ◌==◌, eq_refl, eq_of_ne, eq_of_some, Bool-cases, Option-cases, String-cases, length,
  length-append, if◌then◌else◌,
}
use regional_rate_limiter.Prelude.Dict
use regional_rate_limiter.Prelude.Dict.{get-put, get-remove}
use regional_rate_limiter.Js.{Number}
use regional_rate_limiter.Validation.{LimitKey}
use regional_rate_limiter.Rpc.{Timestamp, ServiceError}
use regional_rate_limiter.Rpc.Backends.{
  Reply, reply, failure, CreateLimitRequest, UpdateLimitRequest, DeleteLimitRequest,
}
use regional_rate_limiter.Mocks.Quotaenforcer.{map_key, actor_of}
use regional_rate_limiter.Mocks.Quotamgmt.{
  Quotamgmt, StoredLimit, AuditRow, write_audit, create_limit, insert_limit, update_limit,
  overwrite, delete_limit,
}

-- The rows bear the ids n + 1, n + 2, …
abbrev NumberedFrom : ℕ → List AuditRow → Type 0
NumberedFrom n [] = Unit
NumberedFrom n (r ∷ rs) = (r.audit_id ≡ n + 1) × NumberedFrom (n + 1) rs

pub record IsAudited (g : Quotamgmt) : Type 0 where
  pub numbered : NumberedFrom 0 g.audit
  pub next : g.next_audit_id ≡ length g.audit + 1
  pub used :
      (k : String) (l : StoredLimit) → Dict.get k g.limits ≡ some l → l.config_id < g.next_config_id

-- A request fails and changes nothing, or succeeds and changes nothing, or succeeds and leaves one
-- new row, the last one, that names its actor.
pub data Audits {A : Type 0} (actor : String) (r : Reply A) (g g' : Quotamgmt) : Type 0 where
  fails : (e : ServiceError) → r ≡ failure e → g' ≡ g → Audits actor r g g'
  skips : (a : A) → r ≡ reply a → g' ≡ g → Audits actor r g g'
  writes :
      (a : A) (row : AuditRow)
      → r ≡ reply a
      → g'.audit ≡ g.audit ++ row ∷ []
      → row.changed_by ≡ actor
      → Audits actor r g g'

-- An operation on limits keeps its audit.
abbrev pub IsLawful : {A : Type 0} → String → Reply A → Quotamgmt → Quotamgmt → Type 0
IsLawful actor r g g' = Audits actor r g g' × (IsAudited g → IsAudited g')

-- A request fails and changes nothing, or succeeds and leaves one new row, the last one, that names
-- its actor.
pub data Records {A : Type 0} (actor : String) (r : Reply A) (g g' : Quotamgmt) : Type 0 where
  rejects : (e : ServiceError) → r ≡ failure e → g' ≡ g → Records actor r g g'
  records :
      (a : A) (row : AuditRow)
      → r ≡ reply a
      → g'.audit ≡ g.audit ++ row ∷ []
      → row.changed_by ≡ actor
      → Records actor r g g'

-- An operation that keeps the audit, and of which every success is recorded in it.
abbrev pub IsRecorded : {A : Type 0} → String → Reply A → Quotamgmt → Quotamgmt → Type 0
IsRecorded actor r g g' = Records actor r g g' × (IsAudited g → IsAudited g')

NumberedFrom-snoc :
    (n : ℕ) (rs : List AuditRow) (r : AuditRow)
    → NumberedFrom n rs
    → r.audit_id ≡ n + length rs + 1
    → NumberedFrom n (rs ++ r ∷ [])
NumberedFrom-snoc n [] r h same = (omega arith, tt)
NumberedFrom-snoc n (q ∷ qs) r (first, h) same =
    (first, NumberedFrom-snoc (n + 1) qs r h (omega arith))

-- Every stored config id is below the bound.
abbrev Below : ℕ → Dict.Dict StoredLimit → Type 0
Below n m = (k : String) (l : StoredLimit) → Dict.get k m ≡ some l → l.config_id < n

Below-put :
    (n : ℕ) (k : String) (v : StoredLimit) (m : Dict.Dict StoredLimit)
    → v.config_id < n
    → Below n m
    → Below n (Dict.put k v m)
Below-put n k v m less h j l found =
    let put = sym (get-put k j v m) ∙ found in
    elim (String-cases k j) [
      | inl e ↦ let same = eq_of_some (rw (e, eq_refl j) at put) in rw (← same) less
      | inr ne ↦ h j l (rw (eq_of_ne k j ne) at put)
    ]

Below-remove :
    (n : ℕ) (k : String) (m : Dict.Dict StoredLimit) → Below n m → Below n (Dict.remove k m)
Below-remove n k m h j l found = kept (sym (get-remove k j m) ∙ found)
  where
    kept : (if k == j then none else Dict.get j m) ≡ some l → l.config_id < n
    kept e = h j l (ground arith)

-- One more row, with the next id.
IsAudited-snoc :
    (g g' : Quotamgmt) (r : AuditRow)
    → g'.audit ≡ g.audit ++ r ∷ []
    → r.audit_id ≡ g.next_audit_id
    → g'.next_audit_id ≡ g.next_audit_id + 1
    → Below g'.next_config_id g'.limits
    → IsAudited g
    → IsAudited g'
IsAudited-snoc g g' r more id next below h = record {
  numbered = rw more (NumberedFrom-snoc 0 g.audit r h.numbered (omega (arith, h.next, id)));
  next = rw more (omega (arith, next, h.next, length-append g.audit (r ∷ [])));
  used = below;
}

module _ (wire : Number → Number) (now_ts : Timestamp) (actor : Option String) (g : Quotamgmt) where
  insert_limit-IsRecorded :
      (key : LimitKey) (v : Number) (u : String)
      → IsRecorded
          (actor_of actor)
          (insert_limit wire now_ts key v u (actor_of actor) g).0
          g
          (insert_limit wire now_ts key v u (actor_of actor) g).1
  unfolding insert_limit write_audit
  insert_limit-IsRecorded key v u = (
    records _ _ refl refl refl,
    λ h.
        IsAudited-snoc g (insert_limit wire now_ts key v u (actor_of actor) g).1 _ refl refl refl
          (Below-put (g.next_config_id + 1) (map_key key) _ g.limits (omega arith)
            (λ k l found. omega (arith, h.used k l found)))
          h,
  )

  -- A creation in the mocked control plane fails and changes nothing, or succeeds and leaves one
  -- audit row, the last one, that names its actor; and if the audit ids were 1, 2, 3, … and no limit had a config
  -- id that is still to be given out, this stays so.
  pub create_limit-IsRecorded :
      (req : CreateLimitRequest)
      → IsRecorded
          (actor_of actor)
          (create_limit wire now_ts req actor g).0
          g
          (create_limit wire now_ts req actor g).1
  unfolding create_limit
  create_limit-IsRecorded req = elim (Bool-cases (actor_of actor == "")) [
    | inl blank ↦ rw (blank, create_limit) (rejects _ refl refl, λ h. h)
    | inr named ↦ elim (Option-cases (Dict.get (map_key req.key) g.limits)) [
      | inl free ↦
          rw (named, create_limit)
            (rw free (insert_limit-IsRecorded req.key req.limit_value req.time_unit))
      | inr (l, taken) ↦ rw (named, create_limit) (rw taken (rejects _ refl refl, λ h. h))
    ]
  ]

  overwrite-IsRecorded :
      (req : UpdateLimitRequest) (l : StoredLimit)
      → Dict.get (map_key req.key) g.limits ≡ some l
      → IsRecorded
          (actor_of actor)
          (overwrite wire now_ts req (actor_of actor) l g).0
          g
          (overwrite wire now_ts req (actor_of actor) l g).1
  unfolding overwrite write_audit
  overwrite-IsRecorded req l found = (
    records _ _ refl refl refl,
    λ h.
        IsAudited-snoc g (overwrite wire now_ts req (actor_of actor) l g).1 _ refl refl refl
          (Below-put g.next_config_id (map_key req.key) _ g.limits
            (h.used (map_key req.key) l found) h.used)
          h,
  )

  -- An update in the mocked control plane, an insertion of an absent limit included, fails and
  -- changes nothing, or succeeds and leaves one audit row, the last one, that names its actor; and if the audit
  -- ids were 1, 2, 3, … and no limit had a config id that is still to be given out, this stays so.
  pub update_limit-IsRecorded :
      (req : UpdateLimitRequest)
      → IsRecorded
          (actor_of actor)
          (update_limit wire now_ts req actor g).0
          g
          (update_limit wire now_ts req actor g).1
  unfolding update_limit
  update_limit-IsRecorded req = elim (Bool-cases (actor_of actor == "")) [
    | inl blank ↦ rw (blank, update_limit) (rejects _ refl refl, λ h. h)
    | inr named ↦ elim (Option-cases (Dict.get (map_key req.key) g.limits)) [
      | inr (l, found) ↦ rw (named, update_limit) (rw found (overwrite-IsRecorded req l found))
      | inl absent ↦ elim (Bool-cases req.create_if_absent) [
        | inl upsert ↦
            rw (named, update_limit)
              (rw (absent, upsert) (insert_limit-IsRecorded req.key req.limit_value req.time_unit))
        | inr strict ↦ rw (named, update_limit) (rw (absent, strict) (rejects _ refl refl, λ h. h))
      ]
    ]
  ]

  -- A deletion in the mocked control plane changes nothing, whether it fails or succeeds, or leaves
  -- one audit row, the last one, that names its actor; and if the audit ids were 1, 2, 3, … and no
  -- limit had a config id that is still to be given out, this stays so.
  pub delete_limit-IsLawful :
      (req : DeleteLimitRequest)
      → IsLawful
          (actor_of actor)
          (delete_limit now_ts req actor g).0
          g
          (delete_limit now_ts req actor g).1
  unfolding delete_limit write_audit
  delete_limit-IsLawful req = elim (Bool-cases (actor_of actor == "")) [
    | inl blank ↦ rw (blank, delete_limit) (fails _ refl refl, λ h. h)
    | inr named ↦ elim (Option-cases (Dict.get (map_key req.key) g.limits)) [
      | inr (l, found) ↦
          rw (named, delete_limit)
            (rw found (
              writes _ _ refl refl refl,
              λ h.
                  IsAudited-snoc g _ _ refl refl refl
                    (Below-remove g.next_config_id (map_key req.key) g.limits h.used) h,
            ))
      | inl absent ↦ elim (Bool-cases req.allow_missing) [
        | inl allowed ↦ rw (named, delete_limit) (rw (absent, allowed) (skips _ refl refl, λ h. h))
        | inr strict ↦ rw (named, delete_limit) (rw (absent, strict) (fails _ refl refl, λ h. h))
      ]
    ]
  ]
