-- ===== src/Session/Linked.antt =====
-- Sessions and the grant store refer to user objects that exist, and a change of grants is seen by
-- the sessions that are live.
use regional_rate_limiter.Prelude.{
  ℕ, zero, suc, String, Option, none, some, List, [], ◌∷◌, ◌++◌, length, ◌≡◌, refl, sym, ◌∙◌, inl,
  inr, arith, ◌==◌, eq_refl, eq_of_ne, eq_of_some, Bool-cases, String-cases, if◌then◌else◌,
}
use regional_rate_limiter.Prelude.Dict
use regional_rate_limiter.Prelude.Dict.{get-put, get-remove}
use regional_rate_limiter.Js.{Number}
use regional_rate_limiter.Rbac.{User}
use regional_rate_limiter.Session.{
  Session, AuthStores, object_at, get_user, put_user, seed_users, create_session, get_session,
  destroy_session,
}

-- Every session and every id of the grant store refers to a user object that exists.
pub record IsLinked (a : AuthStores) : Type 0 where
  pub sessions :
      (id : String) (s : Session)
      → Dict.get id a.sessions ≡ some s
      → (u : User) × (object_at a.objects s.user ≡ some u)
  pub users :
      (id : String) (i : ℕ)
      → Dict.get id a.users ≡ some i
      → (u : User) × (object_at a.objects i ≡ some u)

-- A login or a logout leaves every session linked.
pub create_session-IsLinked :
    (id csrf : String) (time : Number) (i : ℕ) (a : AuthStores) (who : String)
    → get_user who a ≡ some i
    → IsLinked a
    → IsLinked (create_session id csrf time i a).1
unfolding create_session get_user
create_session-IsLinked id csrf time i a who known h = record {
  users = h.users;
  sessions = λ j s found.
      let put = sym (get-put id j _ a.sessions) ∙ found in
      elim (String-cases id j) [
        | inl e ↦
            let same = eq_of_some (rw (e, eq_refl j) at put) in rw (← same) (h.users who i known)
        | inr ne ↦ h.sessions j s (rw (eq_of_ne id j ne) at put)
      ];
}

pub destroy_session-IsLinked :
    (cookie : Option String) (a : AuthStores) → IsLinked a → IsLinked (destroy_session cookie a)
unfolding destroy_session
destroy_session-IsLinked none a h = h
destroy_session-IsLinked (some id) a h = elim (Bool-cases (id == "")) [
  | inl blank ↦ rw blank h
  | inr named ↦ rw named (record {
    users = h.users;
    sessions = λ j s found. h.sessions j s (kept j s (sym (get-remove id j a.sessions) ∙ found));
  })
]
  where
    kept :
        (j : String) (s : Session)
        → (if id == j then none else Dict.get j a.sessions) ≡ some s
        → Dict.get j a.sessions ≡ some s
    kept j s e = ground arith

-- So a session found by its cookie has its user.
pub get_session_linked :
    (cookie : Option String) (a : AuthStores) (s : Session)
    → IsLinked a
    → get_session cookie a ≡ some s
    → (u : User) × (object_at a.objects s.user ≡ some u)
unfolding get_session
get_session_linked none a s h found = absurd (ground arith)
get_session_linked (some id) a s h found = h.sessions id s (ground arith)

object_at-append :
    (us : List User) (v u : User) (i : ℕ)
    → object_at us i ≡ some u
    → object_at (us ++ v ∷ []) i ≡ some u
object_at-append [] v u i h = absurd (ground arith)
object_at-append (x ∷ us) v u zero h = h
object_at-append (x ∷ us) v u (suc i) h = object_at-append us v u i h

object_at-last : (us : List User) (v : User) → object_at (us ++ v ∷ []) (length us) ≡ some v
object_at-last [] v = refl
object_at-last (x ∷ us) v = object_at-last us v

put_user-IsLinked : (v : User) (a : AuthStores) → IsLinked a → IsLinked (put_user v a)
unfolding put_user
put_user-IsLinked v a h = record {
  sessions = λ id s found.
      let (u, owner) = h.sessions id s found in (u, object_at-append a.objects v u s.user owner);
  users = λ id i found.
      let put = sym (get-put v.id id (length a.objects) a.users) ∙ found in
      elim (String-cases v.id id) [
        | inl e ↦
            let same = eq_of_some (rw (e, eq_refl id) at put) in
            (v, rw (← same) (object_at-last a.objects v))
        | inr ne ↦
            let (u, known) = h.users id i (rw (eq_of_ne v.id id ne) at put) in
            (u, object_at-append a.objects v u i known)
      ];
}

pub seed_users-IsLinked :
    (us : List User) (a : AuthStores) → IsLinked a → IsLinked (seed_users us a)
unfolding seed_users
seed_users-IsLinked [] a h = h
seed_users-IsLinked (u ∷ us) a h = seed_users-IsLinked us (put_user u a) (put_user-IsLinked u a h)
