-- ===== src/Common/Exec/Keeps.antt =====
-- Actions that keep a property of the world, one rule for each way to build an action.
use Prim.Native.String.{String}
use mathlib.Core.Path.{◌≡◌, refl}
use threadr.Common.Exec.{
  Err, Result, ok, err, Exec, pure, raise, lift, attempt, continue, wrap, ◌>>=◌,
}

-- The world has the property after the action too, which may fail.
pub record Keeps {ℓ} {W A : Type ℓ} (P : W → Type ℓ) (m : Exec W A) : Type ℓ where
  pub at : (w : W) → P w → P (m w).1

module _ {ℓ} {W A : Type ℓ} {P : W → Type ℓ} where
  pub pure-Keeps : (a : A) → Keeps P (pure a)
  unfolding pure
  pure-Keeps a = record { at = λ w h. h }

  pub raise-Keeps : (e : Err) → Keeps P (raise {A = A} e)
  unfolding raise
  raise-Keeps e = record { at = λ w h. h }

  pub lift-Keeps : (r : Result A) → Keeps P (lift r)
  unfolding lift
  lift-Keeps r = record { at = λ w h. h }

  pub attempt-Keeps : (m : Exec W A) → Keeps P m → Keeps P (attempt m)
  unfolding attempt
  attempt-Keeps m k = record { at = k.at }

  pub wrap-Keeps : (message : String) (m : Exec W A) → Keeps P m → Keeps P (wrap message m)
  unfolding wrap
  wrap-Keeps message m k = record { at = k.at }

module _ {ℓ} {W A B : Type ℓ} {P : W → Type ℓ} where
  continue_keeps :
      (r : Result A) (f : A → Exec W B)
      → ((a : A) → r ≡ ok a → Keeps P (f a))
      → (w : W) → P w
      → P (continue r f w).1
  continue_keeps (ok a) f k w h = (k a refl).at w h
  continue_keeps (err e) f k w h = h

  pub bind-Keeps :
      (m : Exec W A) (f : A → Exec W B) → Keeps P m → ((a : A) → Keeps P (f a)) → Keeps P (m >>= f)
  unfolding ◌>>=◌
  bind-Keeps m f km kf = record {
    at = λ w h. continue_keeps (m w).0 f (λ a _. kf a) (m w).1 (km.at w h);
  }

  -- What follows a call that does not act on the world may go by what the call returned.
  pub bind_lifted-Keeps :
      (message : String) (r : Result A) (f : A → Exec W B)
      → ((a : A) → r ≡ ok a → Keeps P (f a))
      → Keeps P (wrap message (lift r) >>= f)
  unfolding ◌>>=◌
  bind_lifted-Keeps message (ok a) f k = record { at = (k a refl).at }
  bind_lifted-Keeps message (err e) f k = record { at = λ w h. h }

  -- The same, for any call, by a property of what it returns.
  pub bind_yields-Keeps :
      (m : Exec W A) (f : A → Exec W B) (Q : A → Type ℓ)
      → Keeps P m
      → ((w w' : W) (a : A) → m w ≡ (ok a, w') → Q a)
      → ((a : A) → Q a → Keeps P (f a))
      → Keeps P (m >>= f)
  unfolding ◌>>=◌
  bind_yields-Keeps m f Q km q kf = record {
    at = λ w h.
        continue_keeps (m w).0 f (λ a e. kf a (q w (m w).1 a (λ i. (e i, (m w).1)))) (m w).1
          (km.at w h);
  }

pub ruleset keeps_rules =
    (pure-Keeps, raise-Keeps, lift-Keeps, attempt-Keeps, wrap-Keeps, bind-Keeps)
