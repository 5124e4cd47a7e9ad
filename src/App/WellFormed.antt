-- ===== src/App/WellFormed.antt =====
-- What always holds of the running server's state, and that every request keeps it.
use regional_rate_limiter.Prelude.{
  ℕ, ◌+◌, ◌≤◌, String, none, ◌≡◌, ◌≢◌, sym, ◌∙◌, inl, inr, arith, eq_of_ne, String-cases,
}
use regional_rate_limiter.Prelude.Dict
use regional_rate_limiter.Prelude.Dict.{get-put, get-remove}
use regional_rate_limiter.Js.{Runtime}
use regional_rate_limiter.Session.Linked.{
  IsLinked, create_session-IsLinked, destroy_session-IsLinked,
}
use regional_rate_limiter.Reviews
use regional_rate_limiter.Reviews.{Decision, Review, ReviewStore, decide, with_decision}
use regional_rate_limiter.Reviews.Lifecycle.{decide_store}
use regional_rate_limiter.ActionLog.Order.{IsNumbered, append-IsNumbered}
use regional_rate_limiter.World.{World}
use regional_rate_limiter.World.Runs.{
  Move, draws_text, reads_clock, logs, calls, files, decides, Run-keeps,
}
use regional_rate_limiter.Routes.{AppDeps}
use regional_rate_limiter.App.{Request, handle}
use regional_rate_limiter.App.Turns.{Turn, idle, logs_in, logs_out, acts, handle-Turn}

-- No review bears the id of a random text still to be drawn.
abbrev pub IsFresh : Runtime → ℕ → ReviewStore → Type 0
IsFresh rt n store = (k : ℕ) → n ≤ k → Dict.get (rt.random_hex k) store ≡ none

pub record WellFormed {S : Type 0} (rt : Runtime) (w : World S) : Type 0 where
  pub linked : IsLinked w.auth
  pub numbered : IsNumbered w.log
  pub fresh : IsFresh rt w.draws w.reviews

-- The random texts never repeat.
abbrev pub NeverRepeats : Runtime → Type 0
NeverRepeats rt = (m n : ℕ) → rt.random_hex m ≡ rt.random_hex n → m ≡ n

-- A decision puts no review under a new id.
decide-none :
    (id approver : String) (decision : Decision) (now : String) (s : ReviewStore) (j : String)
    → Dict.get j s ≡ none
    → Dict.get j (decide id approver decision now s).1 ≡ none
decide-none id approver decision now s j h = elim (decide_store id approver decision now s) [
  | inl same ↦ rw same h
  | inr (b, (found, open_review, other, stored)) ↦ elim (String-cases id j) [
    | inl e ↦ absurd (ground (arith, sym h ∙ rw e at found))
    | inr ne ↦ rw stored (get-put id j _ s ∙ rw (eq_of_ne id j ne) h)
  ]
]

create-IsFresh :
    (rt : Runtime) (n : ℕ) (op : Reviews.PendingOp) (email reason time : String) (s : ReviewStore)
    → NeverRepeats rt
    → IsFresh rt n s
    → IsFresh rt (n + 1) (Reviews.create (rt.random_hex n) op email reason time s).1
unfolding Reviews.create
create-IsFresh rt n op email reason time s distinct h k le =
    let ne : rt.random_hex n ≢ rt.random_hex k = λ e. ground (arith, distinct n k e) in
    get-put (rt.random_hex n) (rt.random_hex k) _ s ∙ rw (eq_of_ne _ _ ne) (h k (omega arith))

module _ {S : Type 0} (rt : Runtime) (distinct : NeverRepeats rt) (email : String) where
  pub Move-IsFresh :
      (v w : World S)
      → Move rt email v w
      → IsFresh rt v.draws v.reviews
      → IsFresh rt w.draws w.reviews
  Move-IsFresh v w (draws_text e) h = rw e (λ k le. h k (omega arith))
  Move-IsFresh v w (reads_clock e) h = rw e h
  Move-IsFresh v w (logs time a n e) h = rw e h
  Move-IsFresh v w (calls b new e) h = rw e h
  Move-IsFresh v w (files op reason time n e) h =
      rw e (create-IsFresh rt v.draws op email reason time v.reviews distinct h)
  Move-IsFresh v w (decides id decision time n e) h =
      rw e (λ k le. decide-none id email decision time v.reviews (rt.random_hex k) (h k le))

  pub Move-WellFormed : (v w : World S) → Move rt email v w → WellFormed rt v → WellFormed rt w
  Move-WellFormed v w m h = record {
    linked = linked_after m;
    numbered = numbered_after m;
    fresh = Move-IsFresh v w m h.fresh;
  }
    where
      linked_after : Move rt email v w → IsLinked w.auth
      linked_after (draws_text e) = rw e h.linked
      linked_after (reads_clock e) = rw e h.linked
      linked_after (logs time a n e) = rw e h.linked
      linked_after (calls b new e) = rw e h.linked
      linked_after (files op reason time n e) = rw e h.linked
      linked_after (decides id decision time n e) = rw e h.linked

      numbered_after : Move rt email v w → IsNumbered w.log
      numbered_after (logs time a n e) = rw e ((append-IsNumbered time a v.log h.numbered).0)
      numbered_after (draws_text e) = rw e h.numbered
      numbered_after (reads_clock e) = rw e h.numbered
      numbered_after (calls b new e) = rw e h.numbered
      numbered_after (files op reason time n e) = rw e h.numbered
      numbered_after (decides id decision time n e) = rw e h.numbered

module _ {S : Type 0} (rt : Runtime) (deps : AppDeps S) where
  Turn-keeps :
      (req : Request) (w w' : World S)
      → NeverRepeats rt
      → WellFormed rt w
      → Turn rt req w w'
      → WellFormed rt w'
  Turn-keeps req w w' distinct h (idle e) = rw e h
  Turn-keeps req w w' distinct h (logs_in who i time known e) = rw e (record {
    linked = create_session-IsLinked _ _ time i w.auth who known h.linked;
    numbered = h.numbered;
    fresh = λ k le. h.fresh k (omega arith);
  })
  Turn-keeps req w w' distinct h (logs_out e) = rw e (record {
    linked = destroy_session-IsLinked req.cookie w.auth h.linked;
    numbered = h.numbered;
    fresh = h.fresh;
  })
  Turn-keeps req w w' distinct h (acts user from run) =
      Run-keeps (WellFormed rt) (Move-WellFormed rt distinct user.email) w w' run h

  -- If the random texts never repeat, every request, whatever it is and whatever the backends do,
  -- keeps the state well formed: sessions and ids refer to user objects that exist, the numbers of
  -- the action log have no gap, and no review bears an id that is still to be drawn.
  pub handle-WellFormed :
      (req : Request) (w : World S)
      → NeverRepeats rt
      → WellFormed rt w
      → WellFormed rt (handle rt deps req w).1
  handle-WellFormed req w distinct h =
      Turn-keeps req w (handle rt deps req w).1 distinct h (handle-Turn rt deps req w)
