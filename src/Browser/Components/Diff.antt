-- ===== src/Browser/Components/Diff.antt =====
-- What the preview of a change shows: quotaui/frontend/src/util/diff.ts.
use Prim.Native.Char.{Char}
use Prim.Native.String as Text
use text.Mathlib.TextEquality.{Char-path}
use regional_rate_limiter.Prelude.{
  eqb, String, true, false, not, Option, none, some, List, [], ◌∷◌, ◌++◌, ◌≡◌, ◌≢◌, ◌↔◌, ◌⊎◌, inl,
  inr, refl, sym, ◌∙◌, ap, arith, ◌==◌, eq_iff, eq_of_ne, eq_of_some, map, All, Any, Bool-cases,
}
use regional_rate_limiter.Js.{Value, Fields}
use regional_rate_limiter.Browser.Components.{
  sort_rank, before, insert_key, sorted_set, row_keys, at_key, FieldDiff, same_text, diff_at,
  diff_rows,
}

before_irrefl : (s : String) → before s s ≡ false
unfolding before
before_irrefl Text.[] = refl
before_irrefl (Text.◌∷◌ c s) = ground (arith, before_irrefl s)

before_trans : (s t u : String) → before s t ≡ true → before t u ≡ true → before s u ≡ true
unfolding before
before_trans Text.[] Text.[] u p q = absurd (ground arith)
before_trans s (Text.◌∷◌ d t) Text.[] p q = absurd (ground arith)
before_trans Text.[] (Text.◌∷◌ d t) (Text.◌∷◌ e u) p q = refl
before_trans (Text.◌∷◌ c s) Text.[] u p q = absurd (ground arith)
before_trans (Text.◌∷◌ c s) (Text.◌∷◌ d t) (Text.◌∷◌ e u) p q = ground (arith, before_trans s t u)

rank_inj : (c d : Char) → sort_rank c ≡ sort_rank d → c ≡ d
rank_inj c d h = Char-path c d (ground arith)

-- Of two texts that differ, one stands before the other.
before_total : (s t : String) → before s t ≡ false → s ≢ t → before t s ≡ true
unfolding before
before_total Text.[] Text.[] p ne = absurd (ne refl)
before_total Text.[] (Text.◌∷◌ d t) p ne = absurd (ground arith)
before_total (Text.◌∷◌ c s) Text.[] p ne = refl
before_total (Text.◌∷◌ c s) (Text.◌∷◌ d t) p ne =
    elim (Bool-cases (eqb (sort_rank c) (sort_rank d))) [
      | inl e ↦
          let same = rank_inj c d (ground arith) in
          let rest = before_total s t (ground arith) (λ h. ne (rw (same, h) refl)) in ground arith
      | inr e ↦ ground arith
    ]

-- Every text stands before all that follow.
abbrev Ascending : List String → Type 0
Ascending [] = Unit
Ascending (k ∷ ks) = All (λ j. before k j ≡ true) ks × Ascending ks

All-insert_key :
    (P : String → Type 0) (k : String) (js : List String) → P k → All P js → All P (insert_key k js)
unfolding insert_key
All-insert_key P k [] p all = (p, tt)
All-insert_key P k (j ∷ js) p (q, all) =
    let rest = All-insert_key P k js p all in
    elim (Bool-cases (k == j)) [
      | inl e ↦ rw e (q, all)
      | inr e ↦
          rw e
            (elim (Bool-cases (before k j)) [ inl f ↦ rw f (p, (q, all)) | inr f ↦ rw f (q, rest) ])
    ]

All-before :
    (k j : String) (js : List String)
    → before k j ≡ true
    → All (λ i. before j i ≡ true) js
    → All (λ i. before k i ≡ true) js
All-before k j [] h all = tt
All-before k j (i ∷ js) h (p, all) = (before_trans k j i h p, All-before k j js h all)

insert_key-Ascending : (k : String) (js : List String) → Ascending js → Ascending (insert_key k js)
unfolding insert_key
insert_key-Ascending k [] up = (tt, tt)
insert_key-Ascending k (j ∷ js) (first, up) =
    let rest = insert_key-Ascending k js up in
    elim (Bool-cases (k == j)) [
      | inl e ↦ rw e (first, up)
      | inr e ↦ rw e (elim (Bool-cases (before k j)) [
        | inl f ↦ rw f ((f, All-before k j js f first), (first, up))
        | inr f ↦
            let later : before j k ≡ true =
              before_total k j f (λ same. ground (arith, (eq_iff k j).1 same)) in
            rw f (All-insert_key _ k js later first, rest)
      ])
    ]

sorted_set-Ascending : (ks : List String) → Ascending (sorted_set ks)
unfolding sorted_set
sorted_set-Ascending [] = tt
sorted_set-Ascending (k ∷ ks) = insert_key-Ascending k (sorted_set ks) (sorted_set-Ascending ks)

abbrev Among : String → List String → Type 0
Among k = Any (λ j. j ≡ k)

insert_key-Among :
    (i k : String) (js : List String) → Among i (insert_key k js) ↔ ((k ≡ i) ⊎ Among i js)
unfolding insert_key
insert_key-Among i k [] = (λ h. h, λ h. h)
insert_key-Among i k (j ∷ js) =
    let rest = insert_key-Among i k js in
    elim (Bool-cases (k == j)) [
      | inl e ↦
          let same = (eq_iff k j).0 e in
          rw e (λ h. inr h, λ h. elim h [ inl p ↦ inl (sym same ∙ p) | inr p ↦ p ])
      | inr e ↦ rw e (elim (Bool-cases (before k j)) [
        | inl f ↦ rw f (λ h. h, λ h. h)
        | inr f ↦ rw f (
          λ h. elim h [
            | inl p ↦ inr (inl p)
            | inr p ↦ elim (rest.0 p) [ inl q ↦ inl q | inr q ↦ inr (inr q) ]
          ],
          λ h. elim h [
            | inl p ↦ inr (rest.1 (inl p))
            | inr p ↦ elim p [ inl q ↦ inl q | inr q ↦ inr (rest.1 (inr q)) ]
          ],
        )
      ])
    ]

sorted_set-Among : (i : String) (ks : List String) → Among i (sorted_set ks) ↔ Among i ks
unfolding sorted_set
sorted_set-Among i [] = (λ h. h, λ h. h)
sorted_set-Among i (k ∷ ks) =
    let rest = sorted_set-Among i ks in
    let here = insert_key-Among i k (sorted_set ks) in
    (
      λ h. elim (here.0 h) [ inl p ↦ inl p | inr p ↦ inr (rest.0 p) ],
      λ h. here.1 (elim h [ inl p ↦ inl p | inr p ↦ inr (rest.1 p) ]),
    )

module _ (stringify : Value → Option String) (old_row new_row : Option Fields) where
  -- An entry compares the values of its key in both rows, by the texts of `JSON.stringify`.
  pub record Compares (d : FieldDiff) : Type 0 where
    pub old_value : d.old_value ≡ at_key old_row d.key
    pub new_value : d.new_value ≡ at_key new_row d.key
    pub changed :
        (d.changed ≡ true) ↔ (stringify (at_key old_row d.key) ≢ stringify (at_key new_row d.key))

  pub record IsDiff (ds : List FieldDiff) : Type 0 where
    pub sorted : Ascending (map (λ d. d.key) ds)
    pub keys :
        (k : String)
        → Among k (map (λ d. d.key) ds) ↔ Among k (row_keys old_row ++ row_keys new_row)
    pub entries : All Compares ds

same_text_iff : (a b : Option String) → (not (same_text a b) ≡ true) ↔ (a ≢ b)
same_text_iff none none = (λ h. absurd (ground arith), λ ne. absurd (ne refl))
same_text_iff (some s) (some t) = (
  λ h e. ground (arith, (eq_iff s t).1 (eq_of_some e)),
  λ ne. rw (eq_of_ne s t (λ e. ne (ap some e))) refl,
)
same_text_iff none (some t) = (λ h e. cc, λ ne. refl)
same_text_iff (some s) none = (λ h e. cc, λ ne. refl)

module _ (stringify : Value → Option String) (old_row new_row : Option Fields) where
  keys_of_entries :
      (ks : List String) → map (λ d. d.key) (map (diff_at stringify old_row new_row) ks) ≡ ks
  keys_of_entries [] = refl
  keys_of_entries (k ∷ ks) = ap (λ js. k ∷ js) (keys_of_entries ks)

  entries-Compares :
      (ks : List String)
      → All (Compares stringify old_row new_row) (map (diff_at stringify old_row new_row) ks)
  entries-Compares [] = tt
  entries-Compares (k ∷ ks) = (
    record { old_value = refl; new_value = refl; changed = same_text_iff _ _ },
    entries-Compares ks,
  )

  -- The preview of a change has one entry for each field that the old or the new row has, none twice
  -- and in order; an entry shows what the two rows hold, and is marked as changed exactly when the
  -- texts of the two values differ.
  pub diff_rows-IsDiff : IsDiff stringify old_row new_row (diff_rows stringify old_row new_row)
  unfolding diff_rows
  diff_rows-IsDiff =
      let same = keys_of_entries (sorted_set (row_keys old_row ++ row_keys new_row)) in
      record {
        sorted = rw same (sorted_set-Ascending _);
        keys = λ k. rw same (sorted_set-Among k _);
        entries = entries-Compares _;
      }
