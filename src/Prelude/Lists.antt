-- ===== src/Prelude/Lists.antt =====
-- Lists: Boolean searches and filters with their declarative readings, lengths over the native ℕ.
use Prim.Native.Nat.{ℕ, zero, suc, ◌+◌}
use mathlib.Core.Path.{◌≡◌}
use mathlib.Core.Logic.{◌⊎◌, inl, inr}
use mathlib.Core.Bool.{Bool, true, false, ◌||◌}
use mathlib.Core.List.{List, [], ◌∷◌, ◌++◌}
use native.Mathlib.Omega.{arith}
use regional_rate_limiter.Prelude.Tests.{if◌then◌else◌}

module _ {ℓ} {A : Type ℓ} where
  abbrev pub length : List A → ℕ
  length [] = 0
  length (x ∷ xs) = suc (length xs)

  abbrev pub take : ℕ → List A → List A
  take zero xs = []
  take (suc n) [] = []
  take (suc n) (x ∷ xs) = x ∷ take n xs

  -- `xs.some(p)`
  abbrev pub any : (A → Bool) → List A → Bool
  any p [] = false
  any p (x ∷ xs) = p x || any p xs

  -- `xs.filter(p)`
  abbrev pub keep : (A → Bool) → List A → List A
  keep p [] = []
  keep p (x ∷ xs) = let rest = keep p xs in if p x then x ∷ rest else rest

  pub length-append : (xs ys : List A) → length (xs ++ ys) ≡ length xs + length ys
  length-append [] ys = omega arith
  length-append (x ∷ xs) ys = omega (arith, length-append xs ys)

module _ {ℓ κ} {A : Type ℓ} where
  abbrev pub All : (A → Type κ) → List A → Type κ
  All P [] = Unit
  All P (x ∷ xs) = P x × All P xs

  pub All-append : (P : A → Type κ) (xs ys : List A) → All P xs → All P ys → All P (xs ++ ys)
  All-append P [] ys h k = k
  All-append P (x ∷ xs) ys (p, h) k = (p, All-append P xs ys h k)

  -- Everything kept satisfies the test.
  pub keep-All :
      (p : A → Bool) (P : A → Type κ)
      → ((a : A) → p a ≡ true → P a)
      → (xs : List A) → All P (keep p xs)
  keep-All p P to [] = tt
  keep-All p P to (x ∷ xs) = ground (arith, to x, keep-All p P to xs)

module _ {ℓ} {A : Type ℓ} where
  abbrev pub Any : (A → Type 0) → List A → Type 0
  Any P [] = ⊥
  Any P (x ∷ xs) = P x ⊎ Any P xs

  pub any→Any :
      (p : A → Bool) (P : A → Type 0)
      → ((a : A) → p a ≡ true → P a)
      → (xs : List A) → any p xs ≡ true
      → Any P xs
  any→Any p P to [] h = ground arith
  any→Any p P to (x ∷ xs) h = ground (arith, to x, any→Any p P to xs)

  pub Any→any :
      (p : A → Bool) (P : A → Type 0)
      → ((a : A) → P a → p a ≡ true)
      → (xs : List A) → Any P xs
      → any p xs ≡ true
  Any→any p P from [] h = absurd h
  Any→any p P from (x ∷ xs) (inl h) = ground (arith, from x h)
  Any→any p P from (x ∷ xs) (inr h) = ground (arith, Any→any p P from xs h)
