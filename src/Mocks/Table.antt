-- ===== src/Mocks/Table.antt =====
-- The calls of quotaui/bff/dev/mocks.ts on limits, and what they promise: a table from keys to
-- settings, whatever the order in the map, the ids and the audit.
use regional_rate_limiter.Prelude.{
  String, Bool, true, false, not, ◌&&◌, Option, none, some, List, [], ◌∷◌, ◌≡◌, ◌==◌, if◌then◌else◌,
}
use mathlib.Core.Option
use regional_rate_limiter.Prelude.Dict
use regional_rate_limiter.Prelude.Dict.{Dict, get-put, get-remove}
use regional_rate_limiter.Js.{Number}
use regional_rate_limiter.Validation.{LimitKey}
use regional_rate_limiter.Rpc.{
  Timestamp, Numeric, value, RawLimit, GrpcStatus, invalid_argument, already_exists, not_found,
}
use regional_rate_limiter.Rpc.Backends.{
  Reply, reply, failure, CreateLimitRequest, UpdateLimitRequest, DeleteLimitRequest,
  GetLimitRequest, GetLimitResponse,
}
use regional_rate_limiter.Mocks.Quotaenforcer.{map_key, actor_of}
use regional_rate_limiter.Mocks.Quotamgmt.{
  Quotamgmt, StoredLimit, create_limit, update_limit, delete_limit, get_limit, default_key,
}
use regional_rate_limiter.Mocks.Keys.{IsPlain}

-- A call on limits, with the actor that it names.
pub data Call : Type 0 where
  create : CreateLimitRequest → Call
  update : UpdateLimitRequest → Call
  delete : DeleteLimitRequest → Call
  read : GetLimitRequest → Call

abbrev pub key_of : Call → LimitKey
key_of (create r) = r.key
key_of (update r) = r.key
key_of (delete r) = r.key
key_of (read r) = r.key

-- What a caller learns.
pub data Outcome : Type 0 where
  stored : Option Numeric → String → Outcome
  found : Option Numeric → String → Bool → Outcome
  removed : Outcome
  refuses : Option GrpcStatus → Outcome

abbrev pub told : {A : Type 0} → (A → Outcome) → Reply A → Outcome
told f (reply a) = f a
told f (failure e) = refuses e.code

abbrev pub stored_raw : RawLimit → Outcome
stored_raw l = stored l.limit_value l.time_unit

abbrev pub found_raw : GetLimitResponse → Outcome
found_raw r = found r.limit.limit_value r.limit.time_unit r.is_default

-- The control plane's answer to a call.
unfoldable pub answer :
    (Number → Number) → Timestamp → Call → Option String → Quotamgmt → Outcome × Quotamgmt
answer wire now_ts (create r) actor g =
    let (a, g') = create_limit wire now_ts r actor g in (told stored_raw a, g')
answer wire now_ts (update r) actor g =
    let (a, g') = update_limit wire now_ts r actor g in (told stored_raw a, g')
answer wire now_ts (delete r) actor g =
    let (a, g') = delete_limit now_ts r actor g in (told (λ u. removed) a, g')
answer wire now_ts (read r) actor g = let (a, g') = get_limit r actor g in (told found_raw a, g')

unfoldable pub answers :
    (Number → Number)
    → Timestamp
    → List (Call × Option String)
    → Quotamgmt
    → List Outcome × Quotamgmt
answers wire now_ts [] g = ([], g)
answers wire now_ts ((c, actor) ∷ cs) g =
    let (o, g') = answer wire now_ts c actor g in
    let (os, g'') = answers wire now_ts cs g' in (o ∷ os, g'')

pub record Setting : Type 0 where
  pub limit_value : Number
  pub time_unit : String

-- Which setting a key has, if any.
abbrev pub Table : Type 0
Table = LimitKey → Option Setting

abbrev pub same_key : LimitKey → LimitKey → Bool
same_key j k =
    j.service_name == k.service_name
    && (j.customer_id == k.customer_id && j.rate_limit_id == k.rate_limit_id)

abbrev pub set : LimitKey → Option Setting → Table → Table
set k s t = λ j. if same_key k j then s else t j

abbrev pub write : LimitKey → Number → String → Table → Outcome × Table
write k n unit t =
    (stored (some (value n)) unit, set k (some (record { limit_value = n; time_unit = unit })) t)

abbrev pub refuse : GrpcStatus → Table → Outcome × Table
refuse status t = (refuses (some status), t)

abbrev pub resolve_default : LimitKey → Table → Outcome × Table
resolve_default k t = elim (t (default_key k)) [
  | none ↦ refuse not_found t
  | some s ↦ (found (some (value s.limit_value)) s.time_unit true, t)
]

-- What a call does to a table, if its actor is accepted.
abbrev pub effect : (Number → Number) → Call → Table → Outcome × Table
effect wire (create r) t = elim (t r.key) [
  | none ↦ write r.key (wire r.limit_value) r.time_unit t
  | some s ↦ refuse already_exists t
]
effect wire (update r) t = elim (t r.key) [
  | none ↦
      if r.create_if_absent
      then write r.key (wire r.limit_value) r.time_unit t
      else refuse not_found t
  | some s ↦ write r.key (wire r.limit_value) r.time_unit t
]
effect wire (delete r) t = elim (t r.key) [
  | none ↦ if r.allow_missing then (removed, t) else refuse not_found t
  | some s ↦ (removed, set r.key none t)
]
effect wire (read r) t = elim (t r.key) [
  | none ↦ if r.resolve then resolve_default r.key t else refuse not_found t
  | some s ↦ (found (some (value s.limit_value)) s.time_unit (r.key.customer_id == "*"), t)
]

abbrev pub is_read : Call → Bool
is_read (read r) = true
is_read _ = false

-- The specification: a read needs no actor, a change does.
unfoldable pub spec : (Number → Number) → Call → Option String → Table → Outcome × Table
spec wire c actor t =
    let ok = effect wire c t in
    if not (is_read c) && actor_of actor == "" then refuse invalid_argument t else ok

unfoldable pub specs :
    (Number → Number) → List (Call × Option String) → Table → List Outcome × Table
specs wire [] t = ([], t)
specs wire ((c, actor) ∷ cs) t =
    let (o, t') = spec wire c actor t in let (os, t'') = specs wire cs t' in (o ∷ os, t'')

abbrev pub setting : StoredLimit → Setting
setting l = record { limit_value = l.limit_value; time_unit = l.time_unit }

-- The store agrees with a table at every key without a "|".
pub record Represents (m : Dict StoredLimit) (t : Table) : Type 0 where
  pub at : (k : LimitKey) → IsPlain k → Option.map setting (Dict.get (map_key k) m) ≡ t k
