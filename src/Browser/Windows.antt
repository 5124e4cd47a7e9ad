-- ===== src/Browser/Windows.antt =====
-- quotaui/frontend/src/util/windowId.ts: the id of the current window. The getters of a `Date` are
-- the fields of a record; `String(n)` of a whole number is its decimal digits.
pub mod Exact
use Prim.Native.Char.{Char}
use Prim.Native.String as Text
use Prim.Native.String.{count}
use regional_rate_limiter.Prelude.{
  ℕ, zero, suc, ◌+◌, ◌-◌, ◌/◌, ◌%◌, String, List, [], ◌∷◌, ltb, if◌then◌else◌,
}
use regional_rate_limiter.Js.{template}

pub data TimeUnit : Type 0 where
  minute day month : TimeUnit

-- `getUTCFullYear`, `getUTCMonth`, which is 0 in January, `getUTCDate`, `getUTCHours` and
-- `getUTCMinutes`
pub record Date : Type 0 where
  pub full_year : ℕ
  pub month : ℕ
  pub date : ℕ
  pub hours : ℕ
  pub minutes : ℕ

abbrev pub digit : ℕ → Char
digit zero = "0"
digit (suc zero) = "1"
digit (suc (suc zero)) = "2"
digit (suc (suc (suc zero))) = "3"
digit (suc (suc (suc (suc zero)))) = "4"
digit (suc (suc (suc (suc (suc zero))))) = "5"
digit (suc (suc (suc (suc (suc (suc zero)))))) = "6"
digit (suc (suc (suc (suc (suc (suc (suc zero))))))) = "7"
digit (suc (suc (suc (suc (suc (suc (suc (suc zero)))))))) = "8"
digit _ = "9"

-- The digits of `n` in front of a text; the fuel is more than the number of digits if it is above `n`.
unfoldable pub digits : ℕ → ℕ → String → String
digits zero n out = out
digits (suc fuel) n out =
    let rest = digits fuel (n / 10) (Text.◌∷◌ (digit (n % 10)) out) in
    if ltb n 10 then Text.◌∷◌ (digit n) out else rest

-- `String(n)`
abbrev pub decimal : ℕ → String
decimal n = digits (n + 1) n ""

-- A text with `k` zeros in front.
unfoldable pub zeros : ℕ → String → String
zeros zero s = s
zeros (suc k) s = Text.◌∷◌ "0" (zeros k s)

-- `pad`: `String(n).padStart(len, "0")`
unfoldable pub pad : ℕ → ℕ → String
pad n len = zeros (len - count (decimal n)) (decimal n)

unfoldable pub window_id : TimeUnit → Date → String
window_id unit d =
    let y = pad d.full_year 4 in
    let mo = pad (d.month + 1) 2 in
    let da = pad d.date 2 in
    let h = pad d.hours 2 in
    let mi = pad d.minutes 2 in
    elim unit [
      | minute ↦ template (y ∷ mo ∷ da ∷ h ∷ mi ∷ [])
      | day ↦ template (y ∷ mo ∷ da ∷ [])
      | month ↦ template (y ∷ mo ∷ [])
    ]

unfoldable pub window_label : TimeUnit → Date → String
window_label minute d = template ("current minute (" ∷ window_id minute d ∷ ")" ∷ [])
window_label day d = template ("today (" ∷ window_id day d ∷ ")" ∷ [])
window_label month d = template ("this month (" ∷ window_id month d ∷ ")" ∷ [])
