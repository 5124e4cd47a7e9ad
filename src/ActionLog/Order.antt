-- ===== src/ActionLog/Order.antt =====
-- The order of the action log: numbers without gaps, and lists from the newest entry down.
use mathlib.Core.List.{reverse-cons, reverse-append}
use regional_rate_limiter.Prelude.{
  ℕ, zero, suc, ◌+◌, ◌<◌, String, Bool, Option, none, some, List, [], ◌∷◌, ◌++◌, ◌≡◌, ◌≢◌, refl,
  arith, ◌==◌, eq_iff, reverse, take, length, length-append, keep, eq_of_ne, All, All-append,
  keep-All,
}
use regional_rate_limiter.Prelude.Int.{ℤ, pos, negsuc}
use regional_rate_limiter.ActionLog.{
  Action, ActionLogEntry, ActionLog, empty, append, list, by_actor, cut,
}

-- The entries bear the numbers n + 1, n + 2, …
abbrev pub NumberedFrom : ℕ → List ActionLogEntry → Type 0
NumberedFrom n [] = Unit
NumberedFrom n (e ∷ es) = (e.seq ≡ n + 1) × NumberedFrom (n + 1) es

pub record IsNumbered (log : ActionLog) : Type 0 where
  pub numbered : NumberedFrom 0 log.entries
  pub last : log.seq ≡ length log.entries

-- Each entry is newer than those that follow it.
abbrev pub IsDescending : List ActionLogEntry → Type 0
IsDescending [] = Unit
IsDescending (e ∷ es) = All (λ f. f.seq < e.seq) es × IsDescending es

NumberedFrom-snoc :
    (n : ℕ) (es : List ActionLogEntry) (e : ActionLogEntry)
    → NumberedFrom n es
    → e.seq ≡ n + length es + 1
    → NumberedFrom n (es ++ e ∷ [])
NumberedFrom-snoc n [] e h same = (omega arith, tt)
NumberedFrom-snoc n (f ∷ fs) e (first, h) same =
    (first, NumberedFrom-snoc (n + 1) fs e h (omega arith))

pub empty-IsNumbered : IsNumbered empty
empty-IsNumbered = record { numbered = tt; last = refl }

-- Appending keeps every earlier entry in its place, however many there are, adds the given action as
-- the last one, and keeps the numbers 1, 2, 3, … without a gap.
pub append-IsNumbered :
    (now : String) (e : Action) (log : ActionLog)
    → IsNumbered log
    → IsNumbered (append now e log).1
      × ((append now e log).1.entries ≡ log.entries ++ (append now e log).0 ∷ [])
      × ((append now e log).0.act ≡ e)
unfolding append
append-IsNumbered now e log h = (
  record {
    numbered = NumberedFrom-snoc 0 log.entries _ h.numbered (omega (arith, h.last));
    last = omega (arith, h.last, length-append log.entries ((append now e log).0 ∷ []));
  },
  refl,
  refl,
)

IsDescending-snoc :
    (es : List ActionLogEntry) (e : ActionLogEntry)
    → IsDescending es
    → All (λ f. e.seq < f.seq) es
    → IsDescending (es ++ e ∷ [])
IsDescending-snoc [] e h k = (tt, tt)
IsDescending-snoc (f ∷ fs) e (newest, h) (older, k) =
    (All-append (λ g. g.seq < f.seq) fs (e ∷ []) newest (older, tt), IsDescending-snoc fs e h k)

All-weaken :
    (m n : ℕ) (es : List ActionLogEntry) → m < n → All (λ f. n < f.seq) es → All (λ f. m < f.seq) es
All-weaken m n [] h k = tt
All-weaken m n (e ∷ es) h (k, ks) = (omega arith, All-weaken m n es h ks)

reverse-IsDescending :
    (n : ℕ) (es : List ActionLogEntry)
    → NumberedFrom n es
    → IsDescending (reverse es) × All (λ f. n < f.seq) (reverse es)
reverse-IsDescending n [] h = (tt, tt)
reverse-IsDescending n (e ∷ es) (first, h) =
    let (down, above) = reverse-IsDescending (n + 1) es h in
    rw (reverse-cons e es) (
      IsDescending-snoc (reverse es) e down (rw first above),
      All-append (λ f. n < f.seq) (reverse es) (e ∷ [])
          (All-weaken n (n + 1) (reverse es) (omega arith) above) (omega arith, tt),
    )

module _ (P : ActionLogEntry → Type 0) where
  All-keep : (p : ActionLogEntry → Bool) (es : List ActionLogEntry) → All P es → All P (keep p es)
  All-keep p [] h = tt
  All-keep p (e ∷ es) (h, hs) = ground (arith, All-keep p es hs)

  All-take : (n : ℕ) (es : List ActionLogEntry) → All P es → All P (take n es)
  All-take zero es h = tt
  All-take (suc n) [] h = tt
  All-take (suc n) (e ∷ es) (h, hs) = (h, All-take n es hs)

keep-IsDescending :
    (p : ActionLogEntry → Bool) (es : List ActionLogEntry)
    → IsDescending es
    → IsDescending (keep p es)
keep-IsDescending p [] h = tt
keep-IsDescending p (e ∷ es) (h, hs) =
    ground (arith, All-keep (λ f. f.seq < e.seq) p es h, keep-IsDescending p es hs)

take-IsDescending : (n : ℕ) (es : List ActionLogEntry) → IsDescending es → IsDescending (take n es)
take-IsDescending zero es h = tt
take-IsDescending (suc n) [] h = tt
take-IsDescending (suc n) (e ∷ es) (h, hs) =
    (All-take (λ f. f.seq < e.seq) n es h, take-IsDescending n es hs)

by_actor-IsDescending :
    (who : Option String) (es : List ActionLogEntry)
    → IsDescending es
    → IsDescending (by_actor who es)
by_actor-IsDescending none es h = h
by_actor-IsDescending (some a) es h = ground (arith, keep-IsDescending (λ e. e.actor == a) es h)

cut-IsDescending :
    (limit : Option ℤ) (es : List ActionLogEntry) → IsDescending es → IsDescending (cut limit es)
cut-IsDescending none es h = h
cut-IsDescending (some (pos n)) es h = take-IsDescending n es h
cut-IsDescending (some (negsuc n)) es h = take-IsDescending _ es h

by_actor-All :
    (a : String) (es : List ActionLogEntry) → a ≢ "" → All (λ e. e.actor ≡ a) (by_actor (some a) es)
by_actor-All a es ne =
    rw (eq_of_ne a "" ne)
      (keep-All (λ e. e.actor == a) (λ e. e.actor ≡ a) (λ e. (eq_iff e.actor a).0) es)

cut-All :
    (P : ActionLogEntry → Type 0) (limit : Option ℤ) (es : List ActionLogEntry)
    → All P es
    → All P (cut limit es)
cut-All P none es h = h
cut-All P (some (pos n)) es h = All-take P n es h
cut-All P (some (negsuc n)) es h = All-take P _ es h

-- Whatever the filter and the cut, the entries of a numbered log are listed from the newest down.
pub list-IsDescending :
    (who : Option String) (limit : Option ℤ) (log : ActionLog)
    → IsNumbered log
    → IsDescending (list who limit log)
unfolding list
list-IsDescending who limit log h =
    cut-IsDescending limit _
      (by_actor-IsDescending who _ (reverse-IsDescending 0 log.entries h.numbered).0)

-- A list for one actor holds that actor's entries alone.
pub list-All_actor :
    (a : String) (limit : Option ℤ) (log : ActionLog)
    → a ≢ ""
    → All (λ e. e.actor ≡ a) (list (some a) limit log)
unfolding list
list-All_actor a limit log ne = cut-All _ limit _ (by_actor-All a (reverse log.entries) ne)

-- The first n + 1 entries after an `append` are the new entry and the first n of before.
pub list-append :
    (now : String) (e : Action) (log : ActionLog) (n : ℕ)
    → list none (some (pos (suc n))) (append now e log).1
      ≡ (append now e log).0 ∷ list none (some (pos n)) log
unfolding list append
list-append now e log n = rw (reverse-append log.entries) refl
