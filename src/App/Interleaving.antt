-- ===== src/App/Interleaving.antt =====
-- Requests that run side by side. Node runs other requests while one waits for a backend, so the
-- moves of several people may alternate in any order; each move runs to its end.
use regional_rate_limiter.Prelude.{ℕ, ◌+◌, String, Option, some, ◌≡◌, arith}
use regional_rate_limiter.Prelude.Dict
use regional_rate_limiter.Js.{Number, Runtime}
use regional_rate_limiter.Session.{get_user, create_session, destroy_session}
use regional_rate_limiter.Session.Linked.{create_session-IsLinked, destroy_session-IsLinked}
use regional_rate_limiter.Reviews.{Review}
use regional_rate_limiter.Reviews.Lifecycle.{Reach, here, Progress, Reach-Progress}
use regional_rate_limiter.World.{World}
use regional_rate_limiter.World.Runs.{Move, Run, stop, step}
use regional_rate_limiter.Routes.{AppDeps}
use regional_rate_limiter.App.{Request, handle}
use regional_rate_limiter.App.Turns.{Turn, idle, logs_in, logs_out, acts, handle-Turn}
use regional_rate_limiter.App.WellFormed.{WellFormed, NeverRepeats, Move-WellFormed}
use regional_rate_limiter.App.History.{Move-Reach}

-- The states that moves of anyone, logins and logouts lead to, in any order.
pub data Mixed {S : Type 0} (rt : Runtime) (w : World S) : World S → Type 0 where
  begin : Mixed rt w w
  moves : {u v : World S} → Mixed rt w u → (email : String) → Move rt email u v → Mixed rt w v
  enters :
      {u v : World S}
      → Mixed rt w u
      → (id : String) (i : ℕ) (time : Number) → get_user id u.auth ≡ some i
      → v ≡ record u {
        auth =
            (create_session (rt.random_hex u.draws) (rt.random_hex (u.draws + 1)) time i u.auth).1;
        draws = u.draws + 2;
        readings = u.readings + 1;
      }
      → Mixed rt w v
  leaves :
      {u v : World S}
      → Mixed rt w u
      → (cookie : Option String) → v ≡ record u { auth = destroy_session cookie u.auth }
      → Mixed rt w v

module _ {S : Type 0} (rt : Runtime) where
  Mixed-Run : (email : String) (w u v : World S) → Mixed rt w u → Run rt email u v → Mixed rt w v
  Mixed-Run email w u v m stop = m
  Mixed-Run email w u v m (step {w' = x} r move) = moves (Mixed-Run email w u x m r) email move

  Mixed-Turn : (req : Request) (w u v : World S) → Mixed rt w u → Turn rt req u v → Mixed rt w v
  Mixed-Turn req w u v m (idle e) = rw e m
  Mixed-Turn req w u v m (logs_in id i time known e) = enters m id i time known e
  Mixed-Turn req w u v m (logs_out e) = leaves m req.cookie e
  Mixed-Turn req w u v m (acts user from run) = Mixed-Run user.email w u v m run

  -- One whole request, run after any mixture of moves, goes on with it: its own work is a sequence
  -- of moves, whatever the backends do.
  pub handle-Mixed :
      (deps : AppDeps S) (req : Request) (w u : World S)
      → Mixed rt w u
      → Mixed rt w (handle rt deps req u).1
  handle-Mixed deps req w u m =
      Mixed-Turn req w u (handle rt deps req u).1 m (handle-Turn rt deps req u)

module _ {S : Type 0} (rt : Runtime) (distinct : NeverRepeats rt) where
  -- If the random texts never repeat, a well-formed state stays well formed however the moves of
  -- several people, their logins and their logouts alternate.
  pub Mixed-WellFormed : (w w' : World S) → Mixed rt w w' → WellFormed rt w → WellFormed rt w'
  Mixed-WellFormed w w' begin h = h
  Mixed-WellFormed w w' (moves {u = u} m email move) h =
      Move-WellFormed rt distinct email u w' move (Mixed-WellFormed w u m h)
  Mixed-WellFormed w w' (enters {u = u} m id i time known e) h =
      let before = Mixed-WellFormed w u m h in
      rw e (record {
        linked = create_session-IsLinked _ _ time i u.auth id known before.linked;
        numbered = before.numbered;
        fresh = λ k le. before.fresh k (omega arith);
      })
  Mixed-WellFormed w w' (leaves {u = u} m cookie e) h =
      let before = Mixed-WellFormed w u m h in
      rw e (record {
        linked = destroy_session-IsLinked cookie u.auth before.linked;
        numbered = before.numbered;
        fresh = before.fresh;
      })

  Mixed-Reach : (w w' : World S) → Mixed rt w w' → WellFormed rt w → Reach w.reviews w'.reviews
  Mixed-Reach w w' begin h = here
  Mixed-Reach w w' (moves {u = u} m email move) h =
      Move-Reach rt distinct w.reviews email u w' move
        ((Mixed-WellFormed w u m h).fresh, Mixed-Reach w u m h)
  Mixed-Reach w w' (enters {u = u} m id i time known e) h = rw e (Mixed-Reach w u m h)
  Mixed-Reach w w' (leaves {u = u} m cookie e) h = rw e (Mixed-Reach w u m h)

  -- If the random texts never repeat, then from a well-formed state on, however the moves of several
  -- people, their logins and their logouts alternate, a stored review stays in the store, keeps its
  -- change, its reason and its initiator, and is decided at most once, by another person than its
  -- initiator; a decided one never changes again.
  pub interleaved_review :
      (w w' : World S) (id : String) (r : Review)
      → WellFormed rt w
      → Mixed rt w w'
      → Dict.get id w.reviews ≡ some r
      → (r' : Review) × (Dict.get id w'.reviews ≡ some r') × Progress r r'
  interleaved_review w w' id r h mixed found = Reach-Progress id r (Mixed-Reach w w' mixed h) found
