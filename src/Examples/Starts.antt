-- ===== src/Examples/Starts.antt =====
-- The theorems on the start of a process and on the mocked control plane, at concrete inputs.
use Prim.Native.String as Text
use regional_rate_limiter.Prelude.{
  String, Bool, true, false, Option, none, some, List, [], ◌∷◌, ◌≡◌, ◌≢◌, refl, arith, ap, All,
}
use regional_rate_limiter.Prelude.Int.{pos}
use regional_rate_limiter.Prelude.Dict
use regional_rate_limiter.Js.{int, text, field, end}
use regional_rate_limiter.Rpc.{value, invalid_argument}
use regional_rate_limiter.Rpc.Backends.{CreateLimitRequest}
use regional_rate_limiter.World.{World}
use regional_rate_limiter.Reviews.{Review}
use regional_rate_limiter.App.{ApiRoute, api, login, Request, handle}
use regional_rate_limiter.App.WellFormed.{WellFormed}
use regional_rate_limiter.App.Authors.{WasFiled}
use regional_rate_limiter.App.History.{WasLogged, begin, serves}
use regional_rate_limiter.Mocks.{Mocks}
use regional_rate_limiter.Mocks.Quotamgmt.{StoredLimit, create_limit}
use regional_rate_limiter.Mocks.Quotaenforcer.{map_key}
use regional_rate_limiter.Mocks.Keys.{is_plain}
use regional_rate_limiter.Mocks.Table
use regional_rate_limiter.Mocks.Table.{Call, Outcome, answers, specs, Represents}
use regional_rate_limiter.Mocks.Refinement.{answers_refine}
use regional_rate_limiter.Start.{entrypoint, make_deps, make_world}
use regional_rate_limiter.Start.Sound.{IsTwoPerson, make_world-Served}
use regional_rate_limiter.Start.Closed.{entrypoint-Served}
use regional_rate_limiter.Start.Dev.{seeded_mgmt, add_limits}
use regional_rate_limiter.Start.Dev.Reused.{first_key, seeded_reused}
use regional_rate_limiter.Examples.{engine, same_number, deps, backend, bob, api_key, noon, request}
use regional_rate_limiter.Examples.Requests.{hex_distinct}

abbrev dev_login : Request
dev_login = request "" login (field "user" (text "alice") end)

-- The state after the first login of a process.
abbrev first_login : World Mocks
first_login =
    let p = entrypoint none deps.backends in
    (handle engine (make_deps none p) dev_login (make_world p backend)).1

make_world-Served_example :
    WellFormed engine first_login
    × ((id : String) (r : Review) → Dict.get id first_login.reviews ≡ some r → IsTwoPerson r)
    × ((id : String) (r : Review)
        → Dict.get id first_login.reviews ≡ some r
        → WasFiled engine
            (make_deps none (entrypoint none deps.backends))
            (make_world (entrypoint none deps.backends) backend)
            id
            r)
    × All
        (WasLogged engine
          (make_deps none (entrypoint none deps.backends))
          (make_world (entrypoint none deps.backends) backend))
        first_login.log.entries
make_world-Served_example =
    make_world-Served engine none (entrypoint none deps.backends) backend first_login hex_distinct
      (serves begin dev_login refl)

abbrev closed_login : World Mocks
closed_login =
    let p = entrypoint (some "oidc") deps.backends in
    (handle engine (make_deps (some "oidc") p) dev_login (make_world p backend)).1

entrypoint-Served_example :
    let p = entrypoint (some "oidc") deps.backends in
    (closed_login ≡ make_world p backend)
    × ((req : Request)
        → req.route ≡ login
        → (handle engine (make_deps (some "oidc") p) req closed_login).0.status ≡ 404)
    × ((req : Request) (route : ApiRoute)
        → req.route ≡ api route
        → (handle engine (make_deps (some "oidc") p) req closed_login).0.status ≡ 401)
entrypoint-Served_example =
    entrypoint-Served engine deps.backends backend closed_login (serves begin dev_login refl)

abbrev new_limit : CreateLimitRequest
new_limit = record { key = api_key; limit_value = int (pos 3); time_unit = "DAY" }

is_free : Dict.get (map_key api_key) (seeded_mgmt noon).limits ≡ none
unfolding seeded_mgmt add_limits map_key Dict.get Dict.put
is_free = refl

has_text : String → Bool
has_text Text.[] = false
has_text (Text.◌∷◌ c s) = true

bob_named : bob.email ≢ ""
unfolding has_text
bob_named e = ground (arith, ap has_text e)

seeded_reused_example :
    let (r, g) = create_limit same_number noon new_limit (some bob.email) (seeded_mgmt noon) in
    (old : StoredLimit) × (new : StoredLimit) × (Dict.get (map_key first_key) g.limits ≡ some old)
    × (Dict.get (map_key new_limit.key) g.limits ≡ some new)
    × (old.config_id ≡ new.config_id)
    × (map_key new_limit.key ≢ map_key first_key)
seeded_reused_example = seeded_reused same_number noon noon new_limit bob.email bob_named is_free

-- A creation without an actor, one with an actor, and a read.
abbrev calls : List (Call × Option String)
calls =
    (Call.create new_limit, none)
    ∷ (Call.create new_limit, some "bob@x")
    ∷ (Call.read (record { key = api_key; resolve = true }), none)
    ∷ []

Represents-empty : Represents [] (λ k. none)
unfolding Dict.get
Represents-empty = record { at = λ k plain. refl }

calls_outcomes :
    (specs same_number calls (λ k. none)).0
    ≡ Outcome.refuses (some invalid_argument)
      ∷ Outcome.stored (some (value (int (pos 3)))) "DAY"
      ∷ Outcome.found (some (value (int (pos 3)))) "DAY" false
      ∷ []
unfolding specs Table.spec
calls_outcomes = refl

answers_refine_example :
    ((answers same_number noon calls backend.mgmt).0 ≡ (specs same_number calls (λ k. none)).0)
    × Represents
        (answers same_number noon calls backend.mgmt).1.limits
        (specs same_number calls (λ k. none)).1
unfolding is_plain
answers_refine_example =
    answers_refine same_number noon calls backend.mgmt (λ k. none)
      ((refl, refl), ((refl, refl), ((refl, refl), tt))) Represents-empty
