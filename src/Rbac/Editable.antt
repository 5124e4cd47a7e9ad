-- ===== src/Rbac/Editable.antt =====
-- `editableServices`: the services of the user's own editor grants, each once.
use regional_rate_limiter.Prelude.{
  String, Bool, true, false, Option, none, some, List, [], ◌∷◌, ◌≡◌, ◌≢◌, refl, ◌↔◌, inl, inr,
  arith, ◌==◌, eq_iff, eq_refl, Bool-cases, any, Any, All, ◌&&◌, not, map, keep,
}
use regional_rate_limiter.Rbac.{
  Role, service_editor, is_service_editor, is_blank, User, Grant, editable_services, distinct_from,
  service_of, is_scoped_editor,
}
use regional_rate_limiter.Rbac.Matrix.{Edits}

abbrev pub has : List String → String → Bool
has xs x = any (λ y. y == x) xs

-- Each text differs from those that follow it.
abbrev pub IsDistinct : List String → Type 0
IsDistinct [] = Unit
IsDistinct (x ∷ xs) = All (λ y. y ≢ x) xs × IsDistinct xs

module _ (x : String) where
  distinct_from-All :
      (seen xs : List String) → has seen x ≡ true → All (λ y. y ≢ x) (distinct_from seen xs)
  unfolding distinct_from
  distinct_from-All seen [] h = tt
  distinct_from-All seen (y ∷ ys) h = elim (Bool-cases (has seen y)) [
    | inl old ↦ rw old (distinct_from-All seen ys h)
    | inr new ↦
        rw new (λ e. ground (arith, rw e at new), distinct_from-All (y ∷ seen) ys (ground arith))
  ]

  has-distinct_from :
      (seen xs : List String) → has seen x ≡ false → has (distinct_from seen xs) x ≡ has xs x
  unfolding distinct_from
  has-distinct_from seen [] h = refl
  has-distinct_from seen (y ∷ ys) h = elim (Bool-cases (has seen y)) [
    | inl old ↦
        rw old (ground (arith, has-distinct_from seen ys h, eq_iff y x, λ (e : y ≡ x). rw e at old))
    | inr new ↦ rw new (ground (arith, has-distinct_from (y ∷ seen) ys))
  ]

distinct_from-IsDistinct : (seen xs : List String) → IsDistinct (distinct_from seen xs)
unfolding distinct_from
distinct_from-IsDistinct seen [] = tt
distinct_from-IsDistinct seen (x ∷ xs) = elim (Bool-cases (has seen x)) [
  | inl old ↦ rw old (distinct_from-IsDistinct seen xs)
  | inr new ↦ rw new (
    distinct_from-All x (x ∷ seen) xs (ground (arith, eq_refl x)),
    distinct_from-IsDistinct (x ∷ seen) xs,
  )
]

module _ (s : String) where
  scoped-Edits :
      (g : Grant) → ((is_scoped_editor g && (service_of g == s)) ≡ true) ↔ ((s ≢ "") × Edits s g)
  scoped-Edits g = by_fields g.role g.service
    where
      by_fields :
          (r : Role) (o : Option String)
          → ((is_service_editor r && not (is_blank o) && (elim o [ none ↦ "" | some t ↦ t ] == s))
              ≡ true)
            ↔ ((s ≢ "") × ((r ≡ service_editor) × (o ≡ some s)))
      by_fields r none = ground (arith, eq_iff s "")
      by_fields r (some t) = ground (arith, eq_iff t s, eq_iff t "", eq_iff s "")

  has_editable :
      (gs : List Grant)
      → (has (map service_of (keep is_scoped_editor gs)) s ≡ true) ↔ ((s ≢ "") × Any (Edits s) gs)
  has_editable [] = ground arith
  has_editable (g ∷ gs) = ground (arith, scoped-Edits g, has_editable gs)

-- The services reported as editable are distinct, and are exactly the non-empty services of the
-- user's service-editor grants.
pub editable_services_exact :
    (u : User)
    → IsDistinct (editable_services u)
      × ((s : String) → (has (editable_services u) s ≡ true) ↔ ((s ≢ "") × Any (Edits s) u.grants))
unfolding editable_services
editable_services_exact u = (
  distinct_from-IsDistinct [] _,
  λ s.
      rw (has-distinct_from s [] (map service_of (keep is_scoped_editor u.grants)) refl)
        (has_editable s u.grants),
)
