-- ===== src/Common/Exec/Preserves.antt =====
-- Actions that leave a view of the world alone, one rule for each way to build an action.
use threadr.Common.Tests.{if◌then◌else◌}
use mathlib.Core.Path.{◌≡◌, refl, sym, ◌∙◌}
use mathlib.Core.Bool.{Bool, true, false}
use Prim.Native.String.{String}
use threadr.Common.Exec.{
  Err, Result, ok, err, Exec, pure, raise, lift, gets, attempt, continue, wrap, ◌>>=◌,
}

-- The view is the same after the action, which may fail.
pub record Preserves {ℓ} {W A X : Type ℓ} (view : W → X) (m : Exec W A) : Type ℓ where
  pub at : (w : W) → view (m w).1 ≡ view w

module _ {ℓ} {W A X : Type ℓ} {view : W → X} where
  pub pure-Preserves : (a : A) → Preserves view (pure a)
  unfolding pure
  pure-Preserves a = record { at = λ w. refl }

  pub raise-Preserves : (e : Err) → Preserves view (raise {A = A} e)
  unfolding raise
  raise-Preserves e = record { at = λ w. refl }

  pub lift-Preserves : (r : Result A) → Preserves view (lift r)
  unfolding lift
  lift-Preserves r = record { at = λ w. refl }

  pub gets-Preserves : (f : W → A) → Preserves view (gets f)
  unfolding gets
  gets-Preserves f = record { at = λ w. refl }

  pub attempt-Preserves : (m : Exec W A) → Preserves view m → Preserves view (attempt m)
  unfolding attempt
  attempt-Preserves m k = record { at = k.at }

  pub wrap-Preserves :
      (message : String) (m : Exec W A) → Preserves view m → Preserves view (wrap message m)
  unfolding wrap
  wrap-Preserves message m k = record { at = k.at }

  pub if-Preserves :
      (b : Bool) (m n : Exec W A)
      → Preserves view m
      → Preserves view n
      → Preserves view (if b then m else n)
  if-Preserves true m n km kn = km
  if-Preserves false m n km kn = kn

-- The view after a call whose outcome is known.
pub view-result {ℓ} :
    {W A X : Type ℓ} {view : W → X} (m : Exec W A) {r : Result A} {w w' : W}
    → Preserves view m
    → m w ≡ (r, w')
    → view w' ≡ view w
view-result {view = view} m {w = w} k h = (λ i. view (sym h i).1) ∙ k.at w

module _ {ℓ} {W A B X : Type ℓ} {view : W → X} where
  continue_keeps :
      (r : Result A) (f : A → Exec W B)
      → ((a : A) → Preserves view (f a))
      → (w : W) → view (continue r f w).1 ≡ view w
  continue_keeps (ok a) f k w = (k a).at w
  continue_keeps (err e) f k w = refl

  pub bind-Preserves :
      (m : Exec W A) (f : A → Exec W B)
      → Preserves view m
      → ((a : A) → Preserves view (f a))
      → Preserves view (m >>= f)
  unfolding ◌>>=◌
  bind-Preserves m f km kf = record { at = λ w. continue_keeps (m w).0 f kf (m w).1 ∙ km.at w }

pub ruleset preserves_rules = (
  pure-Preserves, raise-Preserves, lift-Preserves, gets-Preserves, attempt-Preserves,
  wrap-Preserves, if-Preserves, bind-Preserves,
)
