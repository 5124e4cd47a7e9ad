-- ===== src/World/Runs.antt =====
-- The state of the server as a transition system: every action of a route is a run of small moves.
use regional_rate_limiter.Prelude.{
  ℕ, ◌+◌, String, Bool, true, false, Option, none, some, List, ◌++◌, ◌≡◌, refl, if◌then◌else◌,
}
use regional_rate_limiter.Js.{Runtime}
use regional_rate_limiter.Rpc.{Thrown, Converted, converted, failed}
use regional_rate_limiter.Rpc.Backends.{Method, Message, Sent}
use regional_rate_limiter.Reviews
use regional_rate_limiter.Reviews.{PendingOp, Decision, decide}
use regional_rate_limiter.ActionLog
use regional_rate_limiter.ActionLog.{Action}
use regional_rate_limiter.World.{
  World, Outcome, done, thrown, Exec, pure, throw, convert, catch, recover, continue, ◌>>=◌, draw,
  now, append_log, call,
}

-- One write of the shared state on behalf of the person with this e-mail. A review is filed with the
-- next random text as its id and with that person as its initiator, and decided by that person.
pub data Move {S : Type 0} (rt : Runtime) (email : String) (w w' : World S) : Type 0 where
  draws_text : w' ≡ record w { draws = w.draws + 1 } → Move rt email w w'
  reads_clock : w' ≡ record w { readings = w.readings + 1 } → Move rt email w w'
  logs :
      (time : String) (e : Action) (n : ℕ)
      → w' ≡ record w { log = (ActionLog.append time e w.log).1; readings = n }
      → Move rt email w w'
  calls :
      (b : S) (new : List Sent)
      → w' ≡ record w { backend = b; sent = w.sent ++ new }
      → Move rt email w w'
  files :
      (op : PendingOp) (reason time : String) (n : ℕ)
      → w' ≡ record w {
        reviews = (Reviews.create (rt.random_hex w.draws) op email reason time w.reviews).1;
        draws = w.draws + 1;
        readings = n;
      }
      → Move rt email w w'
  decides :
      (id : String) (decision : Decision) (time : String) (n : ℕ)
      → w' ≡ record w { reviews = (decide id email decision time w.reviews).1; readings = n }
      → Move rt email w w'

pub data Run {S : Type 0} (rt : Runtime) (email : String) (w : World S) : World S → Type 0 where
  stop : Run rt email w w
  step : {w' w'' : World S} → Run rt email w w' → Move rt email w' w'' → Run rt email w w''

module _ {S : Type 0} {rt : Runtime} {email : String} where
  Run-trans : {u v w : World S} → Run rt email u v → Run rt email v w → Run rt email u w
  Run-trans r stop = r
  Run-trans r (step s m) = step (Run-trans r s) m

  pub one : {v w : World S} → Move rt email v w → Run rt email v w
  one m = step stop m

  -- What every move keeps, a run keeps.
  pub Run-keeps :
      (I : World S → Type 0)
      → ((v w : World S) → Move rt email v w → I v → I w)
      → (v w : World S) → Run rt email v w
      → I v
      → I w
  Run-keeps I keep v w stop h = h
  Run-keeps I keep v w (step {w' = u} r m) h = keep u w m (Run-keeps I keep v u r h)

-- Whatever the world, the action is a run.
pub record Runs {S A : Type 0} (rt : Runtime) (email : String) (m : Exec S A) : Type 0 where
  pub at : (w : World S) → Run rt email w (m w).1

module _ {S A : Type 0} {rt : Runtime} {email : String} where
  pub still : (m : Exec S A) → ((w : World S) → (m w).1 ≡ w) → Runs rt email m
  still m same = record { at = λ w. rw (same w) stop }

  pub Runs-pure : (a : A) → Runs rt email (pure {S = S} a)
  unfolding pure
  Runs-pure a = still (pure a) (λ w. refl)

  pub Runs-throw : (e : Thrown) → Runs rt email (throw {S = S} {A = A} e)
  unfolding throw
  Runs-throw e = still (throw e) (λ w. refl)

  pub Runs-convert : (c : Converted A) → Runs rt email (convert {S = S} c)
  unfolding convert
  Runs-convert (converted a) = still _ (λ w. refl)
  Runs-convert (failed e) = still _ (λ w. refl)

  pub Runs-if :
      (b : Bool) (m n : Exec S A)
      → Runs rt email m
      → Runs rt email n
      → Runs rt email (if b then m else n)
  Runs-if true m n km kn = km
  Runs-if false m n km kn = kn

module _ {S A B : Type 0} {rt : Runtime} {email : String} where
  chain :
      (m : Exec S A) (g : Outcome A → Exec S B)
      → Runs rt email m
      → ((r : Outcome A) → Runs rt email (g r))
      → Runs rt email (λ w. let (r, w') = m w in g r w')
  chain m g km kg = record { at = λ w. Run-trans (km.at w) ((kg (m w).0).at (m w).1) }

  Runs-continue :
      (r : Outcome A) (f : A → Exec S B)
      → ((a : A) → Runs rt email (f a))
      → Runs rt email (continue r f)
  Runs-continue (done a) f kf = kf a
  Runs-continue (thrown e) f kf = still _ (λ w. refl)

  pub Runs-bind :
      (m : Exec S A) (f : A → Exec S B)
      → Runs rt email m
      → ((a : A) → Runs rt email (f a))
      → Runs rt email (m >>= f)
  unfolding ◌>>=◌
  Runs-bind m f km kf = chain m (λ r. continue r f) km (λ r. Runs-continue r f kf)

module _ {S A : Type 0} {rt : Runtime} {email : String} where
  Runs-recover :
      (r : Outcome A) (handler : Thrown → Exec S A)
      → ((e : Thrown) → Runs rt email (handler e))
      → Runs rt email (recover r handler)
  Runs-recover (done a) handler k = still _ (λ w. refl)
  Runs-recover (thrown e) handler k = k e

  pub Runs-catch :
      (m : Exec S A) (handler : Thrown → Exec S A)
      → Runs rt email m
      → ((e : Thrown) → Runs rt email (handler e))
      → Runs rt email (catch m handler)
  unfolding catch
  Runs-catch m handler km k = chain m (λ r. recover r handler) km (λ r. Runs-recover r handler k)

module _ {S : Type 0} {rt : Runtime} {email : String} where
  pub Runs-draw : Runs rt email (draw {S = S} rt)
  unfolding draw
  Runs-draw = record { at = λ w. one (draws_text refl) }

  pub Runs-now : Runs rt email (now {S = S} rt)
  unfolding now
  Runs-now = record { at = λ w. one (reads_clock refl) }

  pub Runs-append_log : (e : Action) → Runs rt email (append_log {S = S} rt e)
  unfolding append_log
  Runs-append_log e = record { at = λ w. one (logs _ e _ refl) }

module _ {S Req Res : Type 0} {rt : Runtime} {email : String} where
  pub Runs-call :
      (f : Method S Req Res) (name : String) (wrap : Req → Message) (req : Req)
      (actor : Option String)
      → Runs rt email (call f name wrap req actor)
  unfolding call
  Runs-call none name wrap req actor = still _ (λ w. refl)
  Runs-call (some f) name wrap req actor = record { at = λ w. one (calls _ _ refl) }

pub ruleset runs_rules = (
  Runs-pure, Runs-throw, Runs-convert, Runs-if, Runs-bind, Runs-catch, Runs-draw, Runs-now,
  Runs-append_log, Runs-call,
)
