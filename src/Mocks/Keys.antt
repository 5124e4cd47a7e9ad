-- ===== src/Mocks/Keys.antt =====
-- The keys of the maps of both mocks: the texts of a limit's key, joined by "|".
use Prim.Native.Char.{Char, code}
use Prim.Native.String as Text
use text.Mathlib.TextLemmas.{
  head-eq_of_cons-eq, tail-eq_of_cons-eq, append-nil, nil-append, cons-append,
}
use regional_rate_limiter.Prelude.{
  String, Bool, true, false, ◌≡◌, ◌≢◌, refl, sym, ◌∙◌, ap, arith, eqb, if◌then◌else◌,
}
use regional_rate_limiter.Validation.{LimitKey}
use regional_rate_limiter.Mocks.Quotaenforcer.{map_key}

-- A text without a "|".
unfoldable pub is_plain : String → Bool
is_plain Text.[] = true
is_plain (Text.◌∷◌ c s) = let rest = is_plain s in if eqb (code c) 124 then false else rest

abbrev pub IsPlain : LimitKey → Type 0
IsPlain k = (is_plain k.service_name ≡ true) × (is_plain k.customer_id ≡ true)

not_bar : (c : Char) (s : String) → is_plain (Text.◌∷◌ c s) ≡ true → code c ≢ 124
unfolding is_plain
not_bar c s p e = absurd (ground arith)

plain_tail : (c : Char) (s : String) → is_plain (Text.◌∷◌ c s) ≡ true → is_plain s ≡ true
unfolding is_plain
plain_tail c s p = ground arith

bar : (u : String) → Text.◌++◌ "" (Text.◌++◌ "|" u) ≡ Text.◌∷◌ "|" u
bar u =
    nil-append (Text.◌++◌ "|" u) ∙ cons-append "|" "" u ∙ ap (λ w. Text.◌∷◌ "|" w) (nil-append u)

-- What stands before the first "|", and what after it.
bar_inj :
    (s t u v : String)
    → is_plain s ≡ true
    → is_plain t ≡ true
    → Text.◌++◌ s (Text.◌++◌ "|" u) ≡ Text.◌++◌ t (Text.◌++◌ "|" v)
    → (s ≡ t) × (u ≡ v)
bar_inj Text.[] Text.[] u v p q e = (refl, tail-eq_of_cons-eq (sym (bar u) ∙ e ∙ bar v))
bar_inj Text.[] (Text.◌∷◌ d t) u v p q e =
    absurd
      (not_bar d t q (sym (ap code (head-eq_of_cons-eq (sym (bar u) ∙ e ∙ cons-append d t _)))))
bar_inj (Text.◌∷◌ c s) Text.[] u v p q e =
    absurd (not_bar c s p (ap code (head-eq_of_cons-eq (sym (cons-append c s _) ∙ e ∙ bar v))))
bar_inj (Text.◌∷◌ c s) (Text.◌∷◌ d t) u v p q e =
    let e' = sym (cons-append c s _) ∙ e ∙ cons-append d t _ in
    let (same, rest) =
      bar_inj s t u v (plain_tail c s p) (plain_tail d t q) (tail-eq_of_cons-eq e') in
    (rw (head-eq_of_cons-eq e', same) refl, rest)

-- Keys whose service and customer have no "|" have different texts unless they are the same.
pub map_key_inj : (j k : LimitKey) → IsPlain j → IsPlain k → map_key j ≡ map_key k → j ≡ k
unfolding map_key
map_key_inj j k (js, jc) (ks, kc) e =
    let (service, rest) = bar_inj _ _ _ _ js ks e in
    let (customer, last) = bar_inj _ _ _ _ jc kc rest in
    let limit_id = sym (append-nil j.rate_limit_id) ∙ last ∙ append-nil k.rate_limit_id in
    λ i. record { service_name = service i; customer_id = customer i; rate_limit_id = limit_id i }
