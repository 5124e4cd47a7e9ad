-- ===== src/Session/Token.antt =====
-- What a request has to carry to pass the CSRF gate, method by method.
use regional_rate_limiter.Prelude.{
  String, true, Option, none, some, ◌≡◌, ◌≢◌, refl, arith, ◌↔◌, eq_iff, eq_refl, eq_of_ne,
}
use regional_rate_limiter.Session.{
  Session, HttpMethod, get, head, options, post, put, patch, delete, has_csrf, passes_csrf,
}

-- The token is the session's own, and not empty.
abbrev pub IsOwnToken : Option String → Session → Type 0
IsOwnToken token s = (token ≡ some s.csrf_token) × (s.csrf_token ≢ "")

-- A request that only reads needs no token.
abbrev pub Carries : HttpMethod → Option String → Session → Type 0
Carries get token s = Unit
Carries head token s = Unit
Carries options token s = Unit
Carries post token s = IsOwnToken token s
Carries put token s = IsOwnToken token s
Carries patch token s = IsOwnToken token s
Carries delete token s = IsOwnToken token s

module _ (token : Option String) (s : Session) where
  has_csrf_iff : (has_csrf token s ≡ true) ↔ IsOwnToken token s
  has_csrf_iff = (to token, λ (same, named). rw same (own named))
    where
      own : s.csrf_token ≢ "" → has_csrf (some s.csrf_token) s ≡ true
      own named = rw (eq_of_ne s.csrf_token "" named) (eq_refl s.csrf_token)

      to : (o : Option String) → has_csrf o s ≡ true → IsOwnToken o s
      to none h = absurd (ground arith)
      to (some t) h = ground (arith, eq_iff t "", eq_iff t s.csrf_token)

  -- The gate lets a request through exactly if it carries what its method asks for.
  pub passes_csrf_iff : (m : HttpMethod) → (passes_csrf m token s ≡ true) ↔ Carries m token s
  unfolding passes_csrf
  passes_csrf_iff get = (λ h. tt, λ h. refl)
  passes_csrf_iff head = (λ h. tt, λ h. refl)
  passes_csrf_iff options = (λ h. tt, λ h. refl)
  passes_csrf_iff post = has_csrf_iff
  passes_csrf_iff put = has_csrf_iff
  passes_csrf_iff patch = has_csrf_iff
  passes_csrf_iff delete = has_csrf_iff
