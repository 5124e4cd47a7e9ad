-- ===== src/Examples/Requests.antt =====
-- The theorems on whole requests and on sequences of requests, at concrete inputs.
use Prim.Native.Char.{code}
use regional_rate_limiter.Prelude.{
  ℕ, Bool, false, eqb, eq_iff, eq_of_ne, zero, suc, String, some, List, [], ◌∷◌, ◌++◌, ◌≡◌, ◌≢◌,
  refl, ◌⊎◌, All, arith, ap,
}
use regional_rate_limiter.Prelude.Dict
use regional_rate_limiter.Prelude.Int.{pos}
use regional_rate_limiter.Js.{end, int}
use regional_rate_limiter.Rbac.{User}
use regional_rate_limiter.Session.{AuthStores, seed_users, put_user, create_session, get_user}
use regional_rate_limiter.Session.Linked.{IsLinked, seed_users-IsLinked, create_session-IsLinked}
use regional_rate_limiter.Reviews.{create, new_review, Review, PendingOp}
use regional_rate_limiter.Reviews.Lifecycle.{Progress}
use regional_rate_limiter.ActionLog.{ActionLogEntry}
use regional_rate_limiter.ActionLog.Order.{empty-IsNumbered}
use regional_rate_limiter.World.{World}
use regional_rate_limiter.Routes.Direct.{IsDirect}
use regional_rate_limiter.App.{api, approve_review, reset, Request, handle}
use regional_rate_limiter.App.Gate.{is_reset, Adds, IsFrom}
use regional_rate_limiter.App.Access.{IsRefused, handle_gates}
use regional_rate_limiter.App.Effects.{MaySend, handle_effect}
use regional_rate_limiter.App.Attribution.{IsAttributed, handle_log}
use regional_rate_limiter.App.Held.{handle-IsDirect}
use regional_rate_limiter.App.WellFormed.{WellFormed, NeverRepeats, IsFresh, handle-WellFormed}
use regional_rate_limiter.App.History.{
  Served, WasLogged, begin, serves, review_history, log_history,
}
use regional_rate_limiter.Mocks.{Mocks}
use regional_rate_limiter.Examples.{
  engine, hex, deps, start, request, alice, bob, erin, vic, people, logged_in, held, api_key,
  key_fields,
}

-- Bob approves the reset that Alice asked for.
abbrev bob_approves : Request
bob_approves = request "b" (api (approve_review "r1")) end

-- Alice asks for another reset.
abbrev alice_resets : Request
alice_resets = request "a" (api reset) (key_fields end)

handle_effect_example :
    Adds
      (λ w. w.sent)
      (MaySend deps.policy bob_approves.route start)
      bob_approves
      start
      (handle engine deps bob_approves start).1
handle_effect_example = handle_effect engine deps bob_approves start

handle_log_example :
    Adds
      (λ w. w.log.entries)
      (IsAttributed bob_approves.route start)
      bob_approves
      start
      (handle engine deps bob_approves start).1
handle_log_example = handle_log engine deps bob_approves start

handle-IsDirect_example :
    Adds
      (λ w. w.sent)
      (λ user. IsDirect deps.review_policy (is_reset alice_resets.route))
      alice_resets
      start
      (handle engine deps alice_resets start).1
handle-IsDirect_example = handle-IsDirect engine deps alice_resets start refl

-- Whether a text starts with an r.
abbrev starts_r : String → Bool
starts_r String.[] = false
starts_r (String.◌∷◌ c s) = eqb (code c) b'r'

abbrev rest_of : String → String
rest_of String.[] = ""
rest_of (String.◌∷◌ c s) = s

pub hex_distinct : NeverRepeats engine
hex_distinct zero zero e = refl
hex_distinct zero (suc n) e = absurd (ground (arith, ap starts_r e))
hex_distinct (suc m) zero e = absurd (ground (arith, ap starts_r e))
hex_distinct (suc m) (suc n) e = ap suc (hex_distinct m n (ap rest_of e))

no_people : IsLinked (record { objects = []; users = []; sessions = [] })
unfolding Dict.get
no_people = record {
  sessions = λ id s found. absurd (ground arith);
  users = λ id i found. absurd (ground arith);
}

people-IsLinked : IsLinked people
people-IsLinked = seed_users-IsLinked (alice ∷ bob ∷ erin ∷ vic ∷ []) _ no_people

alice_known : get_user "alice" people ≡ some 0
unfolding get_user seed_users put_user Dict.get Dict.put
alice_known = refl

abbrev with_alice : AuthStores
with_alice = (create_session "a" "token" (int (pos 0)) 0 people).1

bob_known : get_user "bob" with_alice ≡ some 1
unfolding get_user seed_users put_user Dict.get Dict.put create_session
bob_known = refl

abbrev with_bob : AuthStores
with_bob = (create_session "b" "token" (int (pos 0)) 1 with_alice).1

erin_known : get_user "erin" with_bob ≡ some 2
unfolding get_user seed_users put_user Dict.get Dict.put create_session
erin_known = refl

logged_in-IsLinked : IsLinked logged_in
logged_in-IsLinked =
    create_session-IsLinked "e" "token" (int (pos 0)) 2 with_bob "erin" erin_known (
      create_session-IsLinked "b" "token" (int (pos 0)) 1 with_alice "bob" bob_known (
        create_session-IsLinked "a" "token" (int (pos 0)) 0 people "alice" alice_known
          people-IsLinked))

abbrev r1 : String
r1 = "r1"

-- No drawn text is "r1": the first is "r", and the others start with an x.
hex_other : (n : ℕ) → r1 ≢ hex n
hex_other zero e = ground (arith, (eq_iff r1 (hex 0)).1 e)
hex_other (suc n) e = ground (arith, ap starts_r e)

held-IsFresh : IsFresh engine 0 held
unfolding create Dict.get Dict.put
held-IsFresh n le = rw (eq_of_ne r1 (hex n) (hex_other n)) refl

pub start-WellFormed : WellFormed engine start
start-WellFormed = record {
  linked = logged_in-IsLinked;
  numbered = empty-IsNumbered;
  fresh = held-IsFresh;
}

handle-WellFormed_example : WellFormed engine (handle engine deps bob_approves start).1
handle-WellFormed_example =
    handle-WellFormed engine deps bob_approves start hex_distinct start-WellFormed

handle_gates_example :
    ((user : User) × IsFrom bob_approves start user)
    ⊎ (((handle engine deps bob_approves start).1 ≡ start)
        × IsRefused bob_approves
            (approve_review "r1")
            start
            (handle engine deps bob_approves start).0.status)
handle_gates_example =
    handle_gates engine deps bob_approves (approve_review "r1") start logged_in-IsLinked refl

abbrev later : World Mocks
later = (handle engine deps alice_resets (handle engine deps bob_approves start).1).1

two_requests : Served engine deps start later
two_requests = serves (serves begin bob_approves refl) alice_resets refl

abbrev pub held_review : Review
held_review = new_review "r1" (PendingOp.reset api_key) "alice@x" "resets a customer's window" "t0"

pub is_held : Dict.get "r1" start.reviews ≡ some held_review
unfolding create Dict.get Dict.put
is_held = refl

review_history_example :
    (r' : Review) × (Dict.get "r1" later.reviews ≡ some r') × Progress held_review r'
review_history_example =
    review_history engine deps start later "r1" held_review hex_distinct start-WellFormed
      two_requests is_held

log_history_example :
    (new : List ActionLogEntry) × (later.log.entries ≡ start.log.entries ++ new)
    × All (WasLogged engine deps start) new
log_history_example = log_history engine deps start later two_requests
