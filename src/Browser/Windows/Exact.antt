-- ===== src/Browser/Windows/Exact.antt =====
-- The ids of windows: their lengths, and which moments share one.
use Prim.Native.Char.{code}
use Prim.Native.String as Text
use Prim.Native.String.{count}
use text.Mathlib.TextLemmas.{length-cons, length-append, append_inj}
use regional_rate_limiter.Prelude.{
  ℕ, zero, suc, ◌+◌, ◌-◌, ◌*◌, ◌/◌, ◌%◌, ◌<◌, ◌≤◌, String, ltb, ◌≡◌, ◌↔◌, refl, sym, ◌∙◌, ap, false,
  arith, inl, inr, Bool-cases,
}
use regional_rate_limiter.Browser.Windows.{
  TimeUnit, minute, day, month, Date, digit, digits, decimal, zeros, pad, window_id,
}

code-digit : (d : ℕ) → d < 10 → code (digit d) ≡ 48 + d
code-digit zero h = refl
code-digit (suc zero) h = refl
code-digit (suc (suc zero)) h = refl
code-digit (suc (suc (suc zero))) h = refl
code-digit (suc (suc (suc (suc zero)))) h = refl
code-digit (suc (suc (suc (suc (suc zero))))) h = refl
code-digit (suc (suc (suc (suc (suc (suc zero)))))) h = refl
code-digit (suc (suc (suc (suc (suc (suc (suc zero))))))) h = refl
code-digit (suc (suc (suc (suc (suc (suc (suc (suc zero)))))))) h = refl
code-digit (suc (suc (suc (suc (suc (suc (suc (suc (suc zero))))))))) h = refl
code-digit (suc (suc (suc (suc (suc (suc (suc (suc (suc (suc n)))))))))) h = absurd (omega arith)

-- The number that digits denote.
unfoldable scan : String → ℕ → ℕ
scan Text.[] n = n
scan (Text.◌∷◌ c s) n = scan s (n * 10 + (code c - 48))

scan-digits : (fuel n : ℕ) (out : String) → n < fuel → scan (digits fuel n out) 0 ≡ scan out n
unfolding scan digits
scan-digits zero n out h = absurd (omega arith)
scan-digits (suc fuel) n out h = elim (Bool-cases (ltb n 10)) [
  | inl e ↦
      let last = code-digit n (ground arith) in
      let read : 0 * 10 + (code (digit n) - 48) ≡ n = omega arith in rw e (ap (scan out) read)
  | inr e ↦ rw e (
      scan-digits fuel (n / 10) _ (ground arith)
      ∙ rw (code-digit (n % 10) (omega arith)) (ap (scan out) (omega arith)))
]

scan-zeros : (k : ℕ) (s : String) → scan (zeros k s) 0 ≡ scan s 0
unfolding scan zeros
scan-zeros zero s = refl
scan-zeros (suc k) s = scan-zeros k s

scan-pad : (n len : ℕ) → scan (pad n len) 0 ≡ n
unfolding pad scan
scan-pad n len = scan-zeros _ _ ∙ scan-digits (n + 1) n "" (omega arith)

-- The powers of ten.
unfoldable ten_to : ℕ → ℕ
ten_to zero = 1
ten_to (suc k) = 10 * ten_to k

ten_step :
    (k n : ℕ)
    → n < ten_to (suc k)
    → ltb n 10 ≡ false
    → (j : ℕ) × (k ≡ suc j) × (n / 10 < ten_to (suc j))
unfolding ten_to
ten_step zero n small e = absurd (ground arith)
ten_step (suc j) n small e = (j, refl, omega arith)

count-digits :
    (k fuel n : ℕ) (out : String)
    → n < fuel
    → n < ten_to (suc k)
    → count (digits fuel n out) ≤ suc k + count out
unfolding digits
count-digits k zero n out h small = absurd (omega arith)
count-digits k (suc fuel) n out h small = elim (Bool-cases (ltb n 10)) [
  | inl e ↦ rw e (rw (length-cons (digit n) out) (omega arith))
  | inr e ↦
      let (j, same, less) = ten_step k n small e in
      let longer =
        count-digits j fuel (n / 10) (Text.◌∷◌ (digit (n % 10)) out) (ground arith) less in
      let one = length-cons (digit (n % 10)) out in rw e (omega arith)
]

count-zeros : (k : ℕ) (s : String) → count (zeros k s) ≡ k + count s
unfolding zeros
count-zeros zero s = omega arith
count-zeros (suc k) s = rw (length-cons "0" (zeros k s), count-zeros k s) (omega arith)

pad_length : (n k : ℕ) → n < ten_to (suc k) → count (pad n (suc k)) ≡ suc k
unfolding pad
pad_length n k small =
    let short = count-digits k (n + 1) n "" (omega arith) small in
    count-zeros (suc k - count (decimal n)) (decimal n) ∙ omega arith

pad_inj : (m n len : ℕ) → pad m len ≡ pad n len → m ≡ n
pad_inj m n len e = sym (scan-pad m len) ∙ ap (λ s. scan s 0) e ∙ scan-pad n len

-- A date of the years 0 to 9999.
pub record IsCalendar (d : Date) : Type 0 where
  pub full_year : d.full_year < 10000
  pub month : d.month < 12
  pub date : d.date ≤ 31
  pub hours : d.hours < 24
  pub minutes : d.minutes < 60

abbrev pub width : TimeUnit → ℕ
width minute = 12
width day = 8
width month = 6

-- The dates lie in the same minute, the same day or the same month.
abbrev pub SameWindow : TimeUnit → Date → Date → Type 0
SameWindow minute a b =
    (a.full_year ≡ b.full_year)
    × (a.month ≡ b.month)
    × (a.date ≡ b.date)
    × (a.hours ≡ b.hours)
    × (a.minutes ≡ b.minutes)
SameWindow day a b = (a.full_year ≡ b.full_year) × (a.month ≡ b.month) × (a.date ≡ b.date)
SameWindow month a b = (a.full_year ≡ b.full_year) × (a.month ≡ b.month)

two_digits : (n : ℕ) → n < 100 → count (pad n 2) ≡ 2
unfolding ten_to
two_digits n h = pad_length n 1 h

year_digits : (n : ℕ) → n < 10000 → count (pad n 4) ≡ 4
unfolding ten_to
year_digits n h = pad_length n 3 h

-- What follows a number that is padded.
pad_split :
    (m n len : ℕ) (s t : String)
    → count (pad m len) ≡ len
    → count (pad n len) ≡ len
    → Text.◌++◌ (pad m len) s ≡ Text.◌++◌ (pad n len) t
    → (m ≡ n) × (s ≡ t)
pad_split m n len s t p q e =
    let (same, rest) = append_inj e (p ∙ sym q) in (pad_inj m n len same, rest)

module _ (d : Date) (h : IsCalendar d) where
  year_length : count (pad d.full_year 4) ≡ 4
  year_length = year_digits d.full_year h.full_year

  month_length : count (pad (d.month + 1) 2) ≡ 2
  month_length = let less = h.month in two_digits (d.month + 1) (omega arith)

  date_length : count (pad d.date 2) ≡ 2
  date_length = let less = h.date in two_digits d.date (omega arith)

  hours_length : count (pad d.hours 2) ≡ 2
  hours_length = let less = h.hours in two_digits d.hours (omega arith)

  minutes_length : count (pad d.minutes 2) ≡ 2
  minutes_length = let less = h.minutes in two_digits d.minutes (omega arith)

-- In the years 0 to 9999, the id of a minute has 12 characters, of a day 8, and of a month 6.
pub window_id-length :
    (unit : TimeUnit) (d : Date) → IsCalendar d → count (window_id unit d) ≡ width unit
unfolding window_id
window_id-length minute d h =
    simp
      (
        length-append,
        year_length d h,
        month_length d h,
        date_length d h,
        hours_length d h,
        minutes_length d h,
      )
      refl
window_id-length day d h =
    simp (length-append, year_length d h, month_length d h, date_length d h) refl
window_id-length month d h = simp (length-append, year_length d h, month_length d h) refl

module _ (a b : Date) (p : IsCalendar a) (q : IsCalendar b) where
  -- A year and a month in front of two texts.
  month_split :
      (s t : String)
      → Text.◌++◌ (pad a.full_year 4) (Text.◌++◌ (pad (a.month + 1) 2) s)
        ≡ Text.◌++◌ (pad b.full_year 4) (Text.◌++◌ (pad (b.month + 1) 2) t)
      → (a.full_year ≡ b.full_year) × (a.month ≡ b.month) × (s ≡ t)
  month_split s t e =
      let (y, e₁) = pad_split _ _ 4 _ _ (year_length a p) (year_length b q) e in
      let (mo, rest) = pad_split _ _ 2 s t (month_length a p) (month_length b q) e₁ in
      (y, omega arith, rest)

  -- And the day of the month.
  date_split :
      (s t : String)
      → Text.◌++◌ (pad a.full_year 4) (Text.◌++◌ (pad (a.month + 1) 2) (Text.◌++◌ (pad a.date 2) s))
        ≡ Text.◌++◌
            (pad b.full_year 4)
            (Text.◌++◌ (pad (b.month + 1) 2) (Text.◌++◌ (pad b.date 2) t))
      → (a.full_year ≡ b.full_year) × (a.month ≡ b.month) × (a.date ≡ b.date) × (s ≡ t)
  date_split s t e =
      let (y, mo, e₁) = month_split _ _ e in
      let (da, rest) = pad_split _ _ 2 s t (date_length a p) (date_length b q) e₁ in
      (y, mo, da, rest)

-- In the years 0 to 9999, two moments have the same id exactly when they lie in the same minute, day
-- or month.
pub window_id_iff :
    (unit : TimeUnit) (a b : Date)
    → IsCalendar a
    → IsCalendar b
    → (window_id unit a ≡ window_id unit b) ↔ SameWindow unit a b
unfolding window_id
window_id_iff month a b p q =
    (λ e. let (y, mo, end) = month_split a b p q _ _ e in (y, mo), λ (y, mo). rw (y, mo) refl)
window_id_iff day a b p q = (
  λ e. let (y, mo, da, end) = date_split a b p q _ _ e in (y, mo, da),
  λ (y, mo, da). rw (y, mo, da) refl,
)
window_id_iff minute a b p q = (
  λ e.
      let (y, mo, da, e₁) = date_split a b p q _ _ e in
      let (ho, e₂) = pad_split _ _ 2 _ _ (hours_length a p) (hours_length b q) e₁ in
      let (mi, end) = pad_split _ _ 2 _ _ (minutes_length a p) (minutes_length b q) e₂ in
      (y, mo, da, ho, mi),
  λ (y, mo, da, ho, mi). rw (y, mo, da, ho, mi) refl,
)
