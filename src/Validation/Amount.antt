-- ===== src/Validation/Amount.antt =====
-- What `validateAmount` accepts.
use regional_rate_limiter.Prelude.{ℕ, ◌≡◌, refl, ◌↔◌, ◌≤◌, ◌<◌, arith, String, ap, ◌∙◌}
use regional_rate_limiter.Prelude.Int.{pos, negsuc}
use regional_rate_limiter.Js.{
  Number, int, Runtime, Value, number, coerce, is_finite, is_integer, less,
}
use regional_rate_limiter.Validation.{valid, amount_result, validate_amount, check_amount}
use regional_rate_limiter.Validation.Limit.{Denotes, Denotes-of_coerce, coerce_of_Denotes}

-- An integer from 1 to `cap`.
abbrev pub IsAmount : Number → ℕ → Type 0
IsAmount n cap = (k : ℕ) × (n ≡ int (pos k)) × (0 < k) × (k ≤ cap)

module _ (rt : Runtime) (cap : ℕ) where
  IsAmount-sound :
      (n m : Number) (t : String)
      → amount_result n (int (pos cap)) t ≡ valid m
      → (n ≡ m) × IsAmount n cap
  unfolding amount_result is_finite is_integer less
  IsAmount-sound (int (pos k)) m t h = (ground arith, (k, refl, ground arith, ground arith))
  IsAmount-sound (int (negsuc k)) m t h = absurd (ground arith)
  IsAmount-sound _ m t h = absurd (ground arith)

  amount_complete :
      (k : ℕ) (t : String)
      → 0 < k
      → k ≤ cap
      → amount_result (int (pos k)) (int (pos cap)) t ≡ valid (int (pos k))
  unfolding amount_result is_finite is_integer less
  amount_complete k t p q = ground arith

  -- Below a cap, a refund amount is accepted exactly when it is, or converts to, an integer from 1
  -- to the cap; the result is that integer.
  pub validate_amount_iff :
      (raw : Value) (n : Number)
      → (validate_amount rt raw (int (pos cap)) ≡ valid n) ↔ (Denotes rt raw n × IsAmount n cap)
  unfolding validate_amount
  validate_amount_iff raw n = (to (coerce rt raw) refl, λ h. from h.0 h.1)
    where
      to :
          (w : Value)
          → coerce rt raw ≡ w
          → check_amount rt w (int (pos cap)) ≡ valid n
          → Denotes rt raw n × IsAmount n cap
      to (number m) e h =
          let (same, amount) = IsAmount-sound m n _ h in
          (Denotes-of_coerce rt raw n (e ∙ ap number same), rw same at amount)
      to _ e h = cc

      from : Denotes rt raw n → IsAmount n cap → validate_amount rt raw (int (pos cap)) ≡ valid n
      from d (k, e, p, q) = rw (coerce_of_Denotes rt raw n d, e) (amount_complete k _ p q)
