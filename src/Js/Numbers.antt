-- ===== src/Js/Numbers.antt =====
-- The values of a JavaScript `number`, and the tests and comparisons that the server uses.
-- -0 is not told apart from 0: no operation modelled here can see the difference.
use regional_rate_limiter.Prelude.{ℕ, Bool, true, false, ◌||◌, ◌&&◌, ltb, eqb, if◌then◌else◌}
use regional_rate_limiter.Prelude.Int.{ℤ, pos, ltb_ℤ, eqb_ℤ}

-- `frac n k` is n + k / 2^1074, not an integer: every finite double is a multiple of 2^-1074.
pub data Number : Type 0 where
  nan infinity neg_infinity : Number
  int : ℤ → Number
  frac : ℤ → ℕ → Number

unfoldable pub is_nan : Number → Bool
is_nan nan = true
is_nan _ = false

unfoldable pub is_zero : Number → Bool
is_zero (int (pos n)) = eqb n 0
is_zero _ = false

-- `Number.isFinite`
unfoldable pub is_finite : Number → Bool
is_finite (int a) = true
is_finite (frac a k) = true
is_finite _ = false

-- `Number.isInteger`
unfoldable pub is_integer : Number → Bool
is_integer (int a) = true
is_integer _ = false

-- `a < b`
unfoldable pub less : Number → Number → Bool
less nan b = false
less a nan = false
less infinity b = false
less a infinity = true
less a neg_infinity = false
less neg_infinity b = true
less (int a) (int b) = ltb_ℤ a b
less (int a) (frac b j) = ltb_ℤ a b || eqb_ℤ a b
less (frac a k) (int b) = ltb_ℤ a b
less (frac a k) (frac b j) = ltb_ℤ a b || (eqb_ℤ a b && ltb k j)

-- `Math.max(a, b)`
unfoldable pub max_number : Number → Number → Number
unfolding less is_nan
max_number a b = if is_nan a || is_nan b then nan else if less a b then b else a
