-- ===== src/World/Grows.antt =====
-- Rules for a list that actions only extend, such as what they send or what they log: one rule for
-- each way to build an action.
use mathlib.Core.List.{append-nil, append_assoc}
use regional_rate_limiter.Prelude.{
  Bool, true, false, List, [], ◌++◌, ◌≡◌, refl, sym, ◌∙◌, ap, All, All-append, if◌then◌else◌,
}
use regional_rate_limiter.Rpc.{Thrown, Converted, converted, failed}
use regional_rate_limiter.World.{
  World, Outcome, done, thrown, Exec, pure, throw, convert, catch, recover, continue, ◌>>=◌,
}

-- Whatever the world, the action adds items that satisfy `P` to the list that `view` shows, after
-- those that were there, and takes none away.
pub record Grows {S A X : Type 0} (view : World S → List X) (P : X → Type 0) (m : Exec S A)
    : Type 0 where
  pub at : (w : World S) → (new : List X) × (view (m w).1 ≡ view w ++ new) × All P new

module _ {S A X : Type 0} {view : World S → List X} {P : X → Type 0} where
  pub quiet : (m : Exec S A) → ((w : World S) → view (m w).1 ≡ view w) → Grows view P m
  quiet m same = record { at = λ w. ([], same w ∙ sym (append-nil (view w)), tt) }

  pub Grows-pure : (a : A) → Grows view P (pure {S = S} a)
  unfolding pure
  Grows-pure a = quiet (pure a) (λ w. refl)

  pub Grows-throw : (e : Thrown) → Grows view P (throw {S = S} {A = A} e)
  unfolding throw
  Grows-throw e = quiet (throw e) (λ w. refl)

  pub Grows-convert : (c : Converted A) → Grows view P (convert {S = S} c)
  unfolding convert
  Grows-convert (converted a) = quiet _ (λ w. refl)
  Grows-convert (failed e) = quiet _ (λ w. refl)

  pub Grows-if :
      (b : Bool) (m n : Exec S A)
      → (b ≡ true → Grows view P m)
      → (b ≡ false → Grows view P n)
      → Grows view P (if b then m else n)
  Grows-if true m n km kn = km refl
  Grows-if false m n km kn = kn refl

module _ {S A B X : Type 0} {view : World S → List X} {P : X → Type 0} where
  -- One action after another, the second a function of the first one's outcome.
  chain :
      (m : Exec S A) (g : Outcome A → Exec S B)
      → Grows view P m
      → ((r : Outcome A) → Grows view P (g r))
      → Grows view P (λ w. let (r, w') = m w in g r w')
  chain m g km kg = record {
    at = λ w.
        let (new, first, all) = km.at w in
        let (r, w') = m w in
        let (new', second, all') = (kg r).at w' in
        (
          new ++ new',
          second ∙ ap (λ (l : List X). l ++ new') first ∙ append_assoc (view w) new new',
          All-append P new new' all all',
        );
  }

  Grows-continue :
      (r : Outcome A) (f : A → Exec S B)
      → ((a : A) → Grows view P (f a))
      → Grows view P (continue r f)
  Grows-continue (done a) f kf = kf a
  Grows-continue (thrown e) f kf = quiet _ (λ w. refl)

  pub Grows-bind :
      (m : Exec S A) (f : A → Exec S B)
      → Grows view P m
      → ((a : A) → Grows view P (f a))
      → Grows view P (m >>= f)
  unfolding ◌>>=◌
  Grows-bind m f km kf = chain m (λ r. continue r f) km (λ r. Grows-continue r f kf)

module _ {S A X : Type 0} {view : World S → List X} {P : X → Type 0} where
  Grows-recover :
      (r : Outcome A) (handler : Thrown → Exec S A)
      → ((e : Thrown) → Grows view P (handler e))
      → Grows view P (recover r handler)
  Grows-recover (done a) handler k = quiet _ (λ w. refl)
  Grows-recover (thrown e) handler k = k e

  pub Grows-catch :
      (m : Exec S A) (handler : Thrown → Exec S A)
      → Grows view P m
      → ((e : Thrown) → Grows view P (handler e))
      → Grows view P (catch m handler)
  unfolding catch
  Grows-catch m handler km k = chain m (λ r. recover r handler) km (λ r. Grows-recover r handler k)

pub ruleset grows_rules =
    (Grows-pure, Grows-throw, Grows-convert, Grows-if, Grows-bind, Grows-catch)
