-- ===== src/App/History.antt =====
-- Sequences of requests: what holds of the server's state however long it runs.
use mathlib.Core.List.{append-nil, append_assoc}
use regional_rate_limiter.Prelude.{
  String, some, List, [], ◌∷◌, ◌++◌, ◌≡◌, refl, sym, ◌∙◌, ap, inl, inr, arith, All, All-append,
}
use regional_rate_limiter.Prelude.Dict
use regional_rate_limiter.Js.{Runtime}
use regional_rate_limiter.Rbac.{User}
use regional_rate_limiter.Reviews.{Review, ReviewStore}
use regional_rate_limiter.Reviews.Lifecycle.{Step, Reach, here, next, Progress, Reach-Progress}
use regional_rate_limiter.Reviews.Lifecycle
use regional_rate_limiter.ActionLog.{ActionLogEntry}
use regional_rate_limiter.World.{World}
use regional_rate_limiter.World.Runs.{
  Move, draws_text, reads_clock, logs, calls, files, decides, Run-keeps,
}
use regional_rate_limiter.Routes.{AppDeps}
use regional_rate_limiter.App.{Request, handle}
use regional_rate_limiter.App.Gate.{IsFrom}
use regional_rate_limiter.App.Turns.{Turn, idle, logs_in, logs_out, acts, handle-Turn}
use regional_rate_limiter.App.WellFormed.{
  WellFormed, NeverRepeats, IsFresh, Move-IsFresh, handle-WellFormed,
}
use regional_rate_limiter.App.Attribution.{IsAttributed, handle_log}

-- The states that a sequence of requests leads to.
pub data Served {S : Type 0} (rt : Runtime) (deps : AppDeps S) (w : World S)
    : World S → Type 0 where
  begin : Served rt deps w w
  serves :
      {u v : World S}
      → Served rt deps w u
      → (req : Request) → v ≡ (handle rt deps req u).1
      → Served rt deps w v

module _ {S : Type 0} (rt : Runtime) (distinct : NeverRepeats rt) (s : ReviewStore) where
  -- The store has been used as a store of reviews is.
  abbrev IsUsed : World S → Type 0
  IsUsed w = IsFresh rt w.draws w.reviews × Reach s w.reviews

  pub Move-Reach :
      (email : String) (v w : World S) → Move rt email v w → IsUsed v → Reach s w.reviews
  Move-Reach email v w (draws_text e) h = rw e (h.1)
  Move-Reach email v w (reads_clock e) h = rw e (h.1)
  Move-Reach email v w (logs time a n e) h = rw e (h.1)
  Move-Reach email v w (calls b new e) h = rw e (h.1)
  Move-Reach email v w (files op reason time n e) h =
      rw e (next h.1 (Lifecycle.files _ op email reason time (h.0 v.draws (omega arith)) refl))
  Move-Reach email v w (decides id decision time n e) h =
      rw e (next h.1 (Lifecycle.tries id email decision time refl))

  Turn-used : (req : Request) (v w : World S) → Turn rt req v w → IsUsed v → Reach s w.reviews
  Turn-used req v w (idle e) h = rw e h.1
  Turn-used req v w (logs_in who i time known e) h = rw e h.1
  Turn-used req v w (logs_out e) h = rw e h.1
  Turn-used req v w (acts user from run) h =
      (Run-keeps IsUsed
        (λ a b m k. (Move-IsFresh rt distinct user.email a b m k.0, Move-Reach user.email a b m k))
        v w run h).1

module _ {S : Type 0} (rt : Runtime) (deps : AppDeps S) where
  pub Served-Reach :
      (w w' : World S)
      → NeverRepeats rt
      → WellFormed rt w
      → Served rt deps w w'
      → WellFormed rt w' × Reach w.reviews w'.reviews
  Served-Reach w w' distinct h begin = (h, here)
  Served-Reach w w' distinct h (serves {u} {v} before req e) =
      let (formed, reach) = Served-Reach w u distinct h before in
      rw e (
        handle-WellFormed rt deps req u distinct formed,
        Turn-used rt distinct w.reviews req u (handle rt deps req u).1 (handle-Turn rt deps req u)
            (formed.fresh, reach),
      )

  -- Two people for every reviewed change, however long the server runs: in a well-formed state, if
  -- the random texts never repeat, whatever requests follow and whatever the backends do, a stored
  -- review stays in the store, keeps its change, its reason and its initiator, and is decided at
  -- most once, by another person than its initiator; a decided one never changes again.
  pub review_history :
      (w w' : World S) (id : String) (r : Review)
      → NeverRepeats rt
      → WellFormed rt w
      → Served rt deps w w'
      → Dict.get id w.reviews ≡ some r
      → (r' : Review) × (Dict.get id w'.reviews ≡ some r') × Progress r r'
  review_history w w' id r distinct h served found =
      Reach-Progress id r (Served-Reach w w' distinct h served).1 found

  -- One of the requests in between left this entry in the log: it came from a user, whom the entry
  -- names, and an approval also names the author of the review, as it was stored when it came.
  pub record WasLogged (w : World S) (e : ActionLogEntry) : Type 0 where
    pub req : Request
    pub before : World S
    pub served : Served rt deps w before
    pub user : User
    pub from : IsFrom req before user
    pub attributed : IsAttributed req.route before user e

  WasLogged-of_attributed :
      (w u : World S) (req : Request) (user : User)
      → Served rt deps w u
      → IsFrom req u user
      → (es : List ActionLogEntry) → All (IsAttributed req.route u user) es
      → All (WasLogged w) es
  WasLogged-of_attributed w u req user served from [] h = tt
  WasLogged-of_attributed w u req user served from (e ∷ es) (attributed, hs) = (
    record {
      req = req;
      before = u;
      served = served;
      user = user;
      from = from;
      attributed = attributed;
    },
    WasLogged-of_attributed w u req user served from es hs,
  )

  -- Whatever requests follow, the action log keeps all its entries, in order, and every new one was
  -- left by one of these requests: it names as its actor the user from whom that request came. If
  -- that request approved a review, the review was then pending and somebody else's, and the entry
  -- names its author as the initiator and the user as the approver; otherwise it names neither.
  pub log_history :
      (w w' : World S)
      → Served rt deps w w'
      → (new : List ActionLogEntry) × (w'.log.entries ≡ w.log.entries ++ new)
        × All (WasLogged w) new
  log_history w w' begin = ([], sym (append-nil w.log.entries), tt)
  log_history w w' (serves {u} {v} before req e) =
      let (old, first, all) = log_history w u before in
      let (new, added, whose) = handle_log rt deps req u in
      rw e (
        old ++ new,
        added
            ∙ ap (λ (l : List ActionLogEntry). l ++ new) first
            ∙ append_assoc w.log.entries old new,
        All-append _ old new all (elim whose [
          | inl nothing ↦ rw nothing tt
          | inr (user, (from, attributed)) ↦
              WasLogged-of_attributed w u req user before from new attributed
        ]),
      )
