-- ===== src/Start/Sound.antt =====
-- What holds from the start of a process on.
use regional_rate_limiter.Prelude.{
  arith, String, Option, none, some, [], ◌≡◌, ◌≢◌, refl, sym, ◌∙◌, inl, inr, All, subst, eq_refl,
  eq_of_ne, eq_of_some, String-cases,
}
use regional_rate_limiter.Prelude.Dict
use regional_rate_limiter.Prelude.Dict.{get-put}
use regional_rate_limiter.Js.{Runtime}
use regional_rate_limiter.Session.Linked.{seed_users-IsLinked}
use regional_rate_limiter.Reviews.{Review, ReviewStore, pending, create}
use regional_rate_limiter.Reviews.Lifecycle.{Step, files, tries, Reach, here, next, decide_store}
use regional_rate_limiter.ActionLog.Order.{empty-IsNumbered}
use regional_rate_limiter.World.{World}
use regional_rate_limiter.App.WellFormed.{WellFormed, NeverRepeats}
use regional_rate_limiter.App.History.{Served, Served-Reach, WasLogged, log_history}
use regional_rate_limiter.App.Authors.{WasFiled, review_author}
use regional_rate_limiter.Start.{Partial, make_deps, make_world, no_stores}

-- A review is pending, or somebody else than its initiator has decided it.
pub data IsTwoPerson (r : Review) : Type 0 where
  undecided : r.status ≡ pending → r.decided_by ≡ none → IsTwoPerson r
  decided_by_other :
      (approver : String) → r.decided_by ≡ some approver → approver ≢ r.initiator → IsTwoPerson r

abbrev AllTwoPerson : ReviewStore → Type 0
AllTwoPerson s = (id : String) (r : Review) → Dict.get id s ≡ some r → IsTwoPerson r

put-AllTwoPerson :
    (id : String) (r : Review) (s : ReviewStore)
    → IsTwoPerson r
    → AllTwoPerson s
    → AllTwoPerson (Dict.put id r s)
put-AllTwoPerson id r s h all j r' found = elim (String-cases id j) [
  | inl same ↦
      let e : r ≡ r' = eq_of_some (sym (get-put id j r s ∙ rw (same, eq_refl j) refl) ∙ found) in
      subst IsTwoPerson e h
  | inr ne ↦ all j r' (sym (get-put id j r s ∙ rw (eq_of_ne id j ne) refl) ∙ found)
]

Step-AllTwoPerson : (s t : ReviewStore) → Step s t → AllTwoPerson s → AllTwoPerson t
unfolding create
Step-AllTwoPerson s t (files id op initiator reason now free e) all =
    rw e (put-AllTwoPerson id _ s (undecided refl refl) all)
Step-AllTwoPerson s t (tries id approver decision now e) all =
    rw e (elim (decide_store id approver decision now s) [
      | inl same ↦ rw same all
      | inr (b, (found, open_review, other, stored)) ↦
          rw stored (
            put-AllTwoPerson id _ s (decided_by_other approver refl (λ same. other (sym same))) all)
    ])

Reach-AllTwoPerson : (s t : ReviewStore) → Reach s t → AllTwoPerson s → AllTwoPerson t
Reach-AllTwoPerson s t here all = all
Reach-AllTwoPerson s t (next {t = u} reach step) all =
    Step-AllTwoPerson u t step (Reach-AllTwoPerson s u reach all)

module _ {S : Type 0} (rt : Runtime) (env : Option String) (p : Partial S) (backend : S) where
  make_world-WellFormed : WellFormed rt (make_world p backend)
  unfolding make_world Dict.get
  make_world-WellFormed = record {
    linked =
        seed_users-IsLinked _ no_stores
          (record { sessions = λ id s found. cc; users = λ id i found. cc });
    numbered = empty-IsNumbered;
    fresh = λ k le. refl;
  }

  -- From the start of a process on, whatever its settings and its backends and whatever requests
  -- come, if the random texts never repeat: the state is well formed; every review is pending or has
  -- been decided by somebody else than its initiator; its initiator is the user whose request filed
  -- it; and every entry of the action log was left by a request and names the user from whom it came
  -- as its actor, and, just if that request approved a review, that user as its approver and the
  -- author of the review, somebody else, as its initiator.
  pub make_world-Served :
      (w : World S)
      → NeverRepeats rt
      → Served rt (make_deps env p) (make_world p backend) w
      → WellFormed rt w
        × ((id : String) (r : Review) → Dict.get id w.reviews ≡ some r → IsTwoPerson r)
        × ((id : String) (r : Review)
            → Dict.get id w.reviews ≡ some r
            → WasFiled rt (make_deps env p) (make_world p backend) id r)
        × All (WasLogged rt (make_deps env p) (make_world p backend)) w.log.entries
  unfolding make_world Dict.get
  make_world-Served w distinct served =
      let (formed, reach) =
        Served-Reach rt (make_deps env p) _ w distinct make_world-WellFormed served in
      let (new, added, logged) = log_history rt (make_deps env p) _ w served in
      (
        formed,
        Reach-AllTwoPerson [] w.reviews reach (λ id r found. cc),
        λ id r found.
            elim (review_author rt (make_deps env p) _ w id r distinct make_world-WellFormed served
              found) [ inl (b, old, same) ↦ absurd (ground (arith, old)) | inr filed ↦ filed ],
        rw added logged,
      )
