-- ===== src/Prelude/Members.antt =====
-- The elements of a list, and of a list that a test has thinned out.
use mathlib.Core.Path.{◌≡◌, sym, ◌∙◌, ap}
use mathlib.Core.Logic.{◌↔◌, inl, inr}
use mathlib.Core.Bool.{Bool, true}
use mathlib.Core.List.{List, [], ◌∷◌}
use native.Mathlib.Omega.{arith}
use regional_rate_limiter.Prelude.Lists.{keep, Any}
use regional_rate_limiter.Prelude.Tests.{Bool-cases}

module _ {A : Type 0} where
  abbrev pub Among : A → List A → Type 0
  Among a = Any (λ x. x ≡ a)

  pub Among-keep :
      (p : A → Bool) (a : A) (xs : List A) → Among a (keep p xs) ↔ (Among a xs × (p a ≡ true))
  Among-keep p a [] = (λ h. absurd h, λ h. absurd (h.0))
  Among-keep p a (x ∷ xs) =
      let rest = Among-keep p a xs in
      elim (Bool-cases (p x)) [
        | inl kept ↦ rw kept (
          λ h. elim h [
            | inl same ↦ (inl same, ap p (sym same) ∙ kept)
            | inr later ↦ (inr (rest.0 later).0, (rest.0 later).1)
          ],
          λ h. elim h.0 [ inl same ↦ inl same | inr later ↦ inr (rest.1 (later, h.1)) ],
        )
        | inr dropped ↦ rw dropped (
          λ h. (inr (rest.0 h).0, (rest.0 h).1),
          λ h. elim h.0 [
            | inl same ↦ absurd (ground (arith, ap p same, dropped))
            | inr later ↦ rest.1 (later, h.1)
          ],
        )
      ]
