-- ===== src/Common/Exec.antt =====
-- Go's calls that return an error and act on a world: state passing, and a result with an error.
pub mod Preserves
pub mod Keeps
use Prim.Native.String.{String}
use mathlib.Core.Path.{◌≡◌, refl}
use mathlib.Core.Logic.{◌≢◌, ◌⊎◌, inl, inr}
use mathlib.Core.Bool.{Bool, true, false}
use native.Mathlib.Omega.{arith}

-- `wrapped` is `fmt.Errorf` with `%w`; the message is the format's own text.
pub data Err : Type 0 where
  not_found : Err
  failed : String → Err
  wrapped : String → Err → Err

-- `apierrors.IsNotFound`, which looks through wrapping.
unfoldable pub is_not_found : Err → Bool
is_not_found not_found = true
is_not_found (failed message) = false
is_not_found (wrapped message e) = is_not_found e

pub data Result {ℓ} (A : Type ℓ) : Type ℓ where
  ok : A → Result A
  err : Err → Result A

pub Result-cases {ℓ} :
    {A : Type ℓ} (r : Result A) → ((a : A) × (r ≡ ok a)) ⊎ ((e : Err) × (r ≡ err e))
Result-cases (ok a) = inl (a, refl)
Result-cases (err e) = inr (e, refl)

-- What was done before an error stays done, so the world comes back beside the error too.
abbrev pub Exec {ℓ} : Type ℓ → Type ℓ → Type ℓ
Exec W A = W → Result A × W

unfoldable pub pure {ℓ} : {W A : Type ℓ} → A → Exec W A
pure a w = (ok a, w)

unfoldable pub raise {ℓ} : {W A : Type ℓ} → Err → Exec W A
raise e w = (err e, w)

-- A call that does not act on the world.
unfoldable pub lift {ℓ} : {W A : Type ℓ} → Result A → Exec W A
lift r w = (r, w)

unfoldable pub gets {ℓ} : {W A : Type ℓ} → (W → A) → Exec W A
gets f w = (ok (f w), w)

-- The error as a value, for a caller that inspects it.
unfoldable pub attempt {ℓ} : {W A : Type ℓ} → Exec W A → Exec W (Result A)
attempt m w = let (r, w') = m w in (ok r, w')

-- `fmt.Errorf("message: %w", err)`.
abbrev pub wrap_err {ℓ} : {A : Type ℓ} → String → Result A → Result A
wrap_err message (ok a) = ok a
wrap_err message (err e) = err (wrapped message e)

unfoldable pub wrap {ℓ} : {W A : Type ℓ} → String → Exec W A → Exec W A
wrap message m w = let (r, w') = m w in (wrap_err message r, w')

abbrev pub continue {ℓ} : {W A B : Type ℓ} → Result A → (A → Exec W B) → Exec W B
continue (ok a) f w = f a w
continue (err e) f w = (err e, w)

infixl 5 ◌>>=◌ ◌>>◌
-- Opening this opens the actions above too.
unfoldable pub ◌>>=◌ {ℓ} : {W A B : Type ℓ} → Exec W A → (A → Exec W B) → Exec W B
unfolding pure raise lift gets attempt wrap
◌>>=◌ m f w = let (r, w') = m w in continue r f w'

abbrev pub ◌>>◌ {ℓ} : {W A B : Type ℓ} → Exec W A → Exec W B → Exec W B
m >> k = m >>= λ _. k

continue-eq-ok {ℓ} :
    {W A B : Type ℓ} (r : Result A) (f : A → Exec W B) {b : B} {w w' : W}
    → continue r f w ≡ (ok b, w')
    → (a : A) × (r ≡ ok a) × (f a w ≡ (ok b, w'))
continue-eq-ok (ok a) f h = (a, refl, h)
continue-eq-ok (err e) f h = cc

-- A call that succeeded: what its first part returned, and the world between the two.
pub bind-eq-ok {ℓ} :
    {W A B : Type ℓ} (m : Exec W A) (f : A → Exec W B) {b : B} {w w' : W}
    → (m >>= f) w ≡ (ok b, w')
    → (a : A) × (v : W) × (m w ≡ (ok a, v)) × (f a v ≡ (ok b, w'))
unfolding ◌>>=◌
bind-eq-ok m f {w = w} h =
    let (a, p, q) = continue-eq-ok (m w).0 f {w = (m w).1} h in
    (a, (m w).1, (λ i. (p i, (m w).1)), q)

pub attempt-eq-ok {ℓ} :
    {W A : Type ℓ} (m : Exec W A) {r : Result A} {w w' : W}
    → attempt m w ≡ (ok r, w')
    → m w ≡ (r, w')
unfolding attempt
attempt-eq-ok m {w = w} h = ground arith

pub lift-eq-ok {ℓ} :
    {W A : Type ℓ} {r : Result A} {a : A} {w w' : W} → lift r w ≡ (ok a, w') → (r ≡ ok a) × (w ≡ w')
unfolding lift
lift-eq-ok h = ((λ i. (h i).0), (λ i. (h i).1))

pub pure-eq-ok {ℓ} :
    {W A : Type ℓ} {a b : A} {w w' : W} → pure a w ≡ (ok b, w') → (a ≡ b) × (w ≡ w')
unfolding pure
pure-eq-ok h = ground arith

wrap_err-eq-ok {ℓ} :
    {A : Type ℓ} (message : String) (r : Result A) {a : A} → wrap_err message r ≡ ok a → r ≡ ok a
wrap_err-eq-ok message (ok a) h = h
wrap_err-eq-ok message (err e) h = cc

pub wrap-eq-ok {ℓ} :
    {W A : Type ℓ} (message : String) (m : Exec W A) {a : A} {w w' : W}
    → wrap message m w ≡ (ok a, w')
    → m w ≡ (ok a, w')
unfolding wrap
wrap-eq-ok message m {w = w} h = λ i. (wrap_err-eq-ok message (m w).0 (λ j. (h j).0) i, (h i).1)

pub raise-ne-ok {ℓ} : {W A : Type ℓ} (e : Err) (w : W) {a : A} {w' : W} → raise e w ≢ (ok a, w')
unfolding raise
raise-ne-ok e w h = cc

module _ {ℓ} {W A B : Type ℓ} (m : Exec W A) (f : A → Exec W B) where
  pub bind_ok : {a : A} {w v : W} → m w ≡ (ok a, v) → (m >>= f) w ≡ f a v
  unfolding ◌>>=◌
  bind_ok h = λ i. continue (h i).0 f (h i).1

  pub bind_err : {e : Err} {w v : W} → m w ≡ (err e, v) → (m >>= f) w ≡ (err e, v)
  unfolding ◌>>=◌
  bind_err h = λ i. continue (h i).0 f (h i).1

pub attempt_result {ℓ} :
    {W A : Type ℓ} (m : Exec W A) {r : Result A} {w v : W} → m w ≡ (r, v) → attempt m w ≡ (ok r, v)
unfolding attempt
attempt_result m h = λ i. (ok (h i).0, (h i).1)

pub wrap_result {ℓ} :
    {W A : Type ℓ} (message : String) (m : Exec W A) {r : Result A} {w v : W}
    → m w ≡ (r, v)
    → wrap message m w ≡ (wrap_err message r, v)
unfolding wrap
wrap_result message m h = λ i. (wrap_err message (h i).0, (h i).1)

pub gets-eq-ok {ℓ} :
    {W A : Type ℓ} (f : W → A) {a : A} {w w' : W} → gets f w ≡ (ok a, w') → (f w ≡ a) × (w ≡ w')
unfolding gets
gets-eq-ok f h = ground arith

-- A wrapped call that does not act on the world.
pub wrap_lifted {ℓ} :
    {W A : Type ℓ} (message : String) (r : Result A) {a : A} (w : W)
    → r ≡ ok a
    → wrap message (lift r) w ≡ (ok a, w)
unfolding lift
wrap_lifted message r {a = a} w h = wrap_result message (lift r) {r = ok a} (λ i. (h i, w))
