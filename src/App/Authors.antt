-- ===== src/App/Authors.antt =====
-- Who files the reviews: the initiator of a stored review is the user whose request filed it.
use regional_rate_limiter.Prelude.{
  String, none, some, ◌≡◌, refl, sym, ◌∙◌, ap, ◌⊎◌, inl, inr, eq_refl, eq_of_ne, eq_of_some, arith,
  String-cases, Option-cases,
}
use regional_rate_limiter.Prelude.Dict
use regional_rate_limiter.Prelude.Dict.{get-put}
use regional_rate_limiter.Js.{Runtime}
use regional_rate_limiter.Rbac.{User}
use regional_rate_limiter.Reviews.{Review, ReviewStore, create}
use regional_rate_limiter.Reviews.Lifecycle.{Progress, unchanged, settled, decide_store}
use regional_rate_limiter.World.{World}
use regional_rate_limiter.World.Runs.{
  Move, draws_text, reads_clock, logs, calls, files, decides, Run-keeps,
}
use regional_rate_limiter.Routes.{AppDeps}
use regional_rate_limiter.App.{Request, handle}
use regional_rate_limiter.App.Gate.{IsFrom}
use regional_rate_limiter.App.Turns.{Turn, idle, logs_in, logs_out, acts, handle-Turn}
use regional_rate_limiter.App.WellFormed.{WellFormed, NeverRepeats}
use regional_rate_limiter.App.History.{Served, begin, serves, Served-Reach, review_history}

-- The review of this id was filed by a request: it was not stored before, stood in the store
-- afterwards, and its initiator then and now is the user from whom the request came.
pub record WasFiled {S : Type 0} (rt : Runtime) (deps : AppDeps S) (w : World S) (id : String)
    (r : Review) : Type 0 where
  pub req : Request
  pub before : World S
  pub served : Served rt deps w before
  pub user : User
  pub from : IsFrom req before user
  pub absent : Dict.get id before.reviews ≡ none
  pub first : Review
  pub stored : Dict.get id (handle rt deps req before).1.reviews ≡ some first
  pub author : first.initiator ≡ user.email
  pub kept : r.initiator ≡ first.initiator

-- Every review of the second store is one of the first, with the same initiator, or has this
-- e-mail as its initiator.
abbrev IsBy : String → ReviewStore → ReviewStore → Type 0
IsBy email s t =
    (id : String) (r : Review)
    → Dict.get id t ≡ some r
    → ((b : Review) × (Dict.get id s ≡ some b) × (r.initiator ≡ b.initiator))
      ⊎ (r.initiator ≡ email)

module _ (email : String) (s t : ReviewStore) (by : IsBy email s t) where
  put-IsBy : (id : String) (r : Review) → r.initiator ≡ email → IsBy email s (Dict.put id r t)
  put-IsBy id r his j r' found = elim (String-cases id j) [
    | inl same ↦
        let e : r ≡ r' = eq_of_some (sym (get-put id j r t ∙ rw (same, eq_refl j) refl) ∙ found) in
        inr (ap (λ (x : Review). x.initiator) (sym e) ∙ his)
    | inr ne ↦ by j r' (sym (get-put id j r t ∙ rw (eq_of_ne id j ne) refl) ∙ found)
  ]

  -- A review that is put back with its initiator.
  again-IsBy :
      (id : String) (b r : Review)
      → Dict.get id t ≡ some b
      → r.initiator ≡ b.initiator
      → IsBy email s (Dict.put id r t)
  again-IsBy id b r there same j r' found = elim (String-cases id j) [
    | inl e ↦
        let back : r ≡ r' = eq_of_some (sym (get-put id j r t ∙ rw (e, eq_refl j) refl) ∙ found) in
        let kept : r'.initiator ≡ b.initiator =
          ap (λ (x : Review). x.initiator) (sym back) ∙ same in
        elim (by id b there) [
          | inl (c, old, its) ↦ inl (c, rw (← e) old, kept ∙ its)
          | inr his ↦ inr (kept ∙ his)
        ]
    | inr ne ↦ by j r' (sym (get-put id j r t ∙ rw (eq_of_ne id j ne) refl) ∙ found)
  ]

module _ {S : Type 0} (rt : Runtime) (s : ReviewStore) where
  Move-IsBy :
      (email : String) (v w : World S)
      → Move rt email v w
      → IsBy email s v.reviews
      → IsBy email s w.reviews
  unfolding create
  Move-IsBy email v w (draws_text e) h = rw e h
  Move-IsBy email v w (reads_clock e) h = rw e h
  Move-IsBy email v w (logs time a n e) h = rw e h
  Move-IsBy email v w (calls b new e) h = rw e h
  Move-IsBy email v w (files op reason time n e) h = rw e (put-IsBy email s v.reviews h _ _ refl)
  Move-IsBy email v w (decides id decision time n e) h =
      rw e (elim (decide_store id email decision time v.reviews) [
        | inl same ↦ rw same h
        | inr (b, (found, open_review, other, stored)) ↦
            rw stored (again-IsBy email s v.reviews h id b _ found refl)
      ])

Progress-initiator : (r r' : Review) → Progress r r' → r'.initiator ≡ r.initiator
Progress-initiator r r' (unchanged e) = ap (λ (x : Review). x.initiator) e
Progress-initiator r r' (settled approver decision now p q e) = ap (λ (x : Review). x.initiator) e

module _ {S : Type 0} (rt : Runtime) (deps : AppDeps S) where
  -- A review that one request brings into the store.
  new_review-IsFrom :
      (req : Request) (u v : World S) (id : String) (r : Review)
      → Turn rt req u v
      → Dict.get id u.reviews ≡ none
      → Dict.get id v.reviews ≡ some r
      → (user : User) × (_ : IsFrom req u user) × (r.initiator ≡ user.email)
  new_review-IsFrom req u v id r (idle e) absent found =
      absurd (ground (arith, sym absent ∙ (rw e at found)))
  new_review-IsFrom req u v id r (logs_in who i time known e) absent found =
      absurd (ground (arith, sym absent ∙ (rw e at found)))
  new_review-IsFrom req u v id r (logs_out e) absent found =
      absurd (ground (arith, sym absent ∙ (rw e at found)))
  new_review-IsFrom req u v id r (acts user from run) absent found =
      let by =
        Run-keeps (λ x. IsBy user.email u.reviews x.reviews) (Move-IsBy rt u.reviews user.email) u v
          run (λ j b there. inl (b, there, refl)) in
      elim (by id r found) [
        | inl (b, there, same) ↦ absurd (ground (arith, sym absent ∙ there))
        | inr his ↦ (user, from, his)
      ]

  -- Every stored review was stored before, with the same initiator, or was filed by a request of
  -- its initiator.
  pub review_author :
      (w w' : World S) (id : String) (r : Review)
      → NeverRepeats rt
      → WellFormed rt w
      → Served rt deps w w'
      → Dict.get id w'.reviews ≡ some r
      → ((b : Review) × (Dict.get id w.reviews ≡ some b) × (r.initiator ≡ b.initiator))
        ⊎ WasFiled rt deps w id r
  review_author w w' id r distinct formed begin found = inl (r, found, refl)
  review_author w w' id r distinct formed (serves {u} {v} earlier req e) found =
      let after : Dict.get id (handle rt deps req u).1.reviews ≡ some r = rw e at found in
      elim (Option-cases (Dict.get id u.reviews)) [
        | inl absent ↦
            let (user, from, his) =
              new_review-IsFrom req u _ id r (handle-Turn rt deps req u) absent after in
            inr (record {
              req = req;
              before = u;
              served = earlier;
              user = user;
              from = from;
              absent = absent;
              first = r;
              stored = after;
              author = his;
              kept = refl;
            })
        | inr (b, there) ↦
            let good = (Served-Reach rt deps w u distinct formed earlier).0 in
            let (r', found', progress) =
              review_history rt deps u (handle rt deps req u).1 id b distinct good
                (serves begin req refl) there in
            let same : r.initiator ≡ b.initiator =
              ap (λ (x : Review). x.initiator) (eq_of_some (sym after ∙ found'))
              ∙ Progress-initiator b r' progress in
            elim (review_author w u id b distinct formed earlier there) [
              | inl (c, old, its) ↦ inl (c, old, same ∙ its)
              | inr f ↦ inr (record {
                req = f.req;
                before = f.before;
                served = f.served;
                user = f.user;
                from = f.from;
                absent = f.absent;
                first = f.first;
                stored = f.stored;
                author = f.author;
                kept = same ∙ f.kept;
              })
            ]
      ]
