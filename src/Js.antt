-- ===== src/Js.antt =====
-- The JavaScript values that the server meets in request bodies and queries, and the conversions
-- that it applies to them.
--
-- A number is an integer, or lies strictly between two integers, or is one of the three values that
-- are not finite. The engine's conversions between numbers, dates and texts, its random source and
-- its clock are not code of the repository: they are the fields of `Runtime`.
mod Numbers
unfoldable pub use Numbers.*
use Prim.Native.Char.{code}
use Prim.Native.String
use regional_rate_limiter.Prelude.{
  ℕ, String, Bool, true, false, not, ◌&&◌, ◌||◌, Option, none, some, List, [], ◌∷◌, ◌==◌, leb, eqb,
  or_else, if◌then◌else◌,
}
use regional_rate_limiter.Prelude.Int.{pos}

-- What the engine and `node:crypto` do, as functions; the last three answer for the n-th draw or
-- reading.
pub record Runtime : Type 0 where
  pub to_number : String → Number  -- Number(s), for a text
  pub number_text : Number → String  -- String(n), for a number
  pub date_parse : String → Number  -- Date.parse(s)
  pub iso_string : Number → Option String  -- new Date(ms).toISOString(), `none` for a RangeError
  pub random_hex : ℕ → String  -- randomBytes(k).toString("hex")
  pub now_iso : ℕ → String  -- new Date().toISOString()
  pub now_ms : ℕ → Number  -- Date.now()
  pub add : Number → Number → Number
  pub multiply : Number → Number → Number
  pub divide : Number → Number → Number
  pub modulo : Number → Number → Number
  pub upper_case : String → String  -- s.toUpperCase()
  pub floor : Number → Number  -- Math.floor

mutual
  pub data Value : Type 0 where
    undefined : Value
    null : Value
    boolean : Bool → Value
    number : Number → Value
    text : String → Value
    array : Items → Value
    object : Fields → Value

  pub data Items : Type 0 where
    nil : Items
    cons : Value → Items → Items

  pub data Fields : Type 0 where
    end : Fields
    field : String → Value → Fields → Fields

-- `o.k`
unfoldable pub property : String → Fields → Value
property k end = undefined
property k (field j v fs) = if j == k then v else property k fs

-- `Boolean(v)`
unfoldable pub truthy : Value → Bool
truthy undefined = false
truthy null = false
truthy (boolean b) = b
truthy (number n) = not (is_zero n || is_nan n)
truthy (text s) = not (s == "")
truthy _ = true

-- A template literal: its parts, one after the other.
abbrev pub template : List String → String
template [] = ""
template (s ∷ parts) = String.◌++◌ s (template parts)

-- The white space and line ends of ECMAScript.
abbrev is_space : ℕ → Bool
is_space c =
    (leb 9 c && leb c 13)
    || eqb c 32
    || eqb c 0xa0
    || eqb c 0x1680
    || (leb 0x2000 c && leb c 0x200a)
    || eqb c 0x2028
    || eqb c 0x2029
    || eqb c 0x202f
    || eqb c 0x205f
    || eqb c 0x3000
    || eqb c 0xfeff

-- `s.trim() === ""`
unfoldable pub is_blank_text : String → Bool
is_blank_text String.[] = true
is_blank_text (String.◌∷◌ c s) = is_space (code c) && is_blank_text s

-- How `join` writes an item whose text is `s`.
abbrev item_text : Value → String → String
item_text undefined s = ""
item_text null s = ""
item_text _ s = s

module _ (rt : Runtime) where
  -- `typeof v === "string" && v.trim() !== "" ? Number(v) : v`
  unfoldable pub coerce : Value → Value
  coerce (text s) = if is_blank_text s then text s else number (rt.to_number s)
  coerce v = v

  unfoldable mutual
    -- `String(v)`
    pub to_text : Value → String
    to_text undefined = "undefined"
    to_text null = "null"
    to_text (boolean b) = if b then "true" else "false"
    to_text (number n) = rt.number_text n
    to_text (text s) = s
    to_text (array vs) = join vs
    to_text (object fs) = "[object Object]"

    -- `vs.join(",")`, where `undefined` and `null` are empty
    pub join : Items → String
    join nil = ""
    join (cons v nil) = item_text v (to_text v)
    join (cons v vs) = template (item_text v (to_text v) ∷ "," ∷ join vs ∷ [])

  -- `Number(v)`
  unfoldable pub value_number : Value → Number
  value_number undefined = nan
  value_number null = int (pos 0)
  value_number (boolean b) = if b then int (pos 1) else int (pos 0)
  value_number (number n) = n
  value_number v = rt.to_number (to_text v)

  -- `q ? Number(q) : 0` for a query parameter
  unfoldable pub query_number : Value → Number
  query_number v = if truthy v then value_number v else int (pos 0)
