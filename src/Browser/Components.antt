-- ===== src/Browser/Components.antt =====
-- quotaui/frontend/src/components.tsx and quotaui/frontend/src/util/diff.ts: what the shared pieces of
-- the pages show. Markup and styles are left out.
pub mod Diff
use regional_rate_limiter.Prelude.{
  ℕ, ◌+◌, ◌-◌, ltb, eqb, String, Bool, true, false, not, Option, none, some, List, [], ◌∷◌, ◌++◌,
  ◌==◌, map, any, if◌then◌else◌,
}
use Prim.Native.Char.{Char, code}
use Prim.Native.String as Text
use regional_rate_limiter.Js.{Value, undefined, Fields, end, field, property}
use regional_rate_limiter.Browser.{PageError, said, api_error, fetch_error}

-- `KindBadge`
abbrev pub kind_badge : Bool → String
kind_badge is_default = if is_default then "DEFAULT" else "OVERRIDE"

-- `ErrorText`: the text of an error, if it shows one; an empty text is no error.
abbrev pub error_text : Option PageError → Option String
error_text none = none
error_text (some (said s)) = if s == "" then none else some s
error_text (some (api_error e)) = some e.message
error_text (some (fetch_error m)) = some m

-- `Object.keys(row ?? {})`
abbrev pub keys_of : Fields → List String
keys_of end = []
keys_of (field k v fs) = k ∷ keys_of fs

abbrev pub row_keys : Option Fields → List String
row_keys none = []
row_keys (some fs) = keys_of fs

-- `row?.[field]`
abbrev pub at_key : Option Fields → String → Value
at_key none k = undefined
at_key (some fs) k = property k fs

-- Where a character stands in the order of `sort`, which compares 16-bit units: those beyond 65535
-- are pairs of units from 55296 to 57343.
abbrev pub sort_rank : Char → ℕ
sort_rank c =
    if ltb (code c) 55296
    then code c
    else (if ltb (code c) 65536 then code c + 1048576 else code c - 10240)

unfoldable pub before : String → String → Bool
before Text.[] Text.[] = false
before Text.[] (Text.◌∷◌ d t) = true
before (Text.◌∷◌ c s) Text.[] = false
before (Text.◌∷◌ c s) (Text.◌∷◌ d t) =
    let rest = before s t in
    if eqb (sort_rank c) (sort_rank d) then rest else ltb (sort_rank c) (sort_rank d)

-- A sorted list with one more key; a key that is there already stays once.
unfoldable pub insert_key : String → List String → List String
insert_key k [] = k ∷ []
insert_key k (j ∷ js) =
    let rest = insert_key k js in
    if k == j then j ∷ js else if before k j then k ∷ j ∷ js else j ∷ rest

-- `[...new Set(keys)].sort()`
unfoldable pub sorted_set : List String → List String
unfolding insert_key
sorted_set [] = []
sorted_set (k ∷ ks) = insert_key k (sorted_set ks)

pub record FieldDiff : Type 0 where
  pub key : String
  pub old_value : Value
  pub new_value : Value
  pub changed : Bool

abbrev pub same_text : Option String → Option String → Bool
same_text none none = true
same_text (some a) (some b) = a == b
same_text _ _ = false

-- `stringify` is `JSON.stringify`; of undefined it is undefined.
module _ (stringify : Value → Option String) where
  abbrev pub diff_at : Option Fields → Option Fields → String → FieldDiff
  diff_at old_row new_row k = record {
    key = k;
    old_value = at_key old_row k;
    new_value = at_key new_row k;
    changed = not (same_text (stringify (at_key old_row k)) (stringify (at_key new_row k)));
  }

  -- `diffRows`
  unfoldable pub diff_rows : Option Fields → Option Fields → List FieldDiff
  diff_rows old_row new_row =
      map (diff_at old_row new_row) (sorted_set (row_keys old_row ++ row_keys new_row))
