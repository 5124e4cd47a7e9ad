-- ===== src/World.antt =====
-- The mutable state of the running server, and the actions over it.
--
-- An action gives a result or throws, and what it wrote before a throw stays written. A request is
-- one action, run from start to end; what the backends do between two calls of one request is part
-- of their RPCs, which are arbitrary. `sent` is a record of the calls, kept for the theorems: no
-- code reads it.
pub mod Grows
pub mod Emits
pub mod Logs
pub mod Runs
use mathlib.Core.Path.{◌≡◌, refl}
use regional_rate_limiter.Prelude.{
  ℕ, ◌+◌, String, Bool, true, false, Option, none, some, List, [], ◌∷◌, ◌++◌, if◌then◌else◌,
}
use regional_rate_limiter.Js.{Number, Runtime, template}
use regional_rate_limiter.Rpc.{
  RpcError, Thrown, rpc_error, other_error, to_rpc_error, Converted, converted, failed,
}
use regional_rate_limiter.Rpc.Backends.{Reply, failure, reply, Method, Message, Sent}
use regional_rate_limiter.Session.{AuthStores}
use regional_rate_limiter.Reviews.{ReviewStore}
use regional_rate_limiter.ActionLog
use regional_rate_limiter.ActionLog.{ActionLog, Action}

pub record World (S : Type 0) : Type 0 where
  pub backend : S
  pub auth : AuthStores
  pub reviews : ReviewStore
  pub log : ActionLog
  pub draws : ℕ  -- random texts drawn so far
  pub readings : ℕ  -- readings of the clock so far
  pub sent : List Sent

pub data Outcome {ℓ} (A : Type ℓ) : Type ℓ where
  done : A → Outcome A
  thrown : Thrown → Outcome A

abbrev pub Exec : Type 0 → Type 0 → Type 0
Exec S A = World S → Outcome A × World S

module _ {S A : Type 0} where
  unfoldable pub pure : A → Exec S A
  pure a w = (done a, w)

  unfoldable pub throw : Thrown → Exec S A
  throw e w = (thrown e, w)

  -- A conversion that may throw a `RangeError`.
  unfoldable pub convert : Converted A → Exec S A
  convert (converted a) w = (done a, w)
  convert (failed e) w = (thrown (other_error e), w)

module _ {S A B : Type 0} where
  abbrev pub continue : Outcome A → (A → Exec S B) → Exec S B
  continue (done a) f w = f a w
  continue (thrown e) f w = (thrown e, w)

  infixl 5 ◌>>=◌ ◌>>◌
  unfoldable pub ◌>>=◌ : Exec S A → (A → Exec S B) → Exec S B
  ◌>>=◌ m f w = let (r, w') = m w in continue r f w'

  abbrev pub ◌>>◌ : Exec S A → Exec S B → Exec S B
  m >> n = m >>= λ _. n

module _ {S A : Type 0} where
  abbrev pub recover : Outcome A → (Thrown → Exec S A) → Exec S A
  recover (done a) handler w = (done a, w)
  recover (thrown e) handler w = handler e w

  -- try { m } catch (e) { handler(e) }
  unfoldable pub catch : Exec S A → (Thrown → Exec S A) → Exec S A
  catch m handler w = let (r, w') = m w in recover r handler w'

module _ {S : Type 0} (rt : Runtime) where
  -- `randomBytes(k).toString("hex")`
  unfoldable pub draw : Exec S String
  draw w = (done (rt.random_hex w.draws), record w { draws = w.draws + 1 })

  -- `new Date().toISOString()`
  unfoldable pub now : Exec S String
  now w = (done (rt.now_iso w.readings), record w { readings = w.readings + 1 })

  -- `actionLog.append`, whose time is a reading of the clock
  unfoldable pub append_log : Action → Exec S (Unit {0})
  append_log e w = (
    done tt,
    record w {
      log = (ActionLog.append (rt.now_iso w.readings) e w.log).1;
      readings = w.readings + 1;
    },
  )

module _ {A : Type 0} where
  abbrev pub from_reply : Reply A → Outcome A
  from_reply (failure err) = thrown (rpc_error (to_rpc_error err))
  from_reply (reply a) = done a

-- `call` of rpc.ts: `name` is the method's name, `actor` the metadata.
module _ {S Req Res : Type 0} where
  unfoldable pub call :
      Method S Req Res → String → (Req → Message) → Req → Option String → Exec S Res
  call none name wrap req actor w = (
    thrown (
        rpc_error (record {
          http_status = 500;
          message = template ("no such rpc: " ∷ name ∷ []);
          code = none;
        })),
    w,
  )
  call (some f) name wrap req actor w =
      let (r, b) = f req actor w.backend in
      (
        from_reply r,
        record w {
          backend = b;
          sent = w.sent ++ record { message = wrap req; actor = actor } ∷ [];
        },
      )
