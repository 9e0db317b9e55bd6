-- ===== src/Common/Equal.antt =====
-- Equality tests: Go's `==` on strings, and `reflect.DeepEqual` at a type with decidable equality.
use Prim.Native.String.{String}
use mathlib.Core.Path.{◌≡◌, refl, ap}
use mathlib.Core.List.{List, [], ◌∷◌}
use mathlib.Core.Option.{Option, none, some}
use mathlib.Core.Logic.{◌↔◌, ◌≢◌}
use mathlib.Core.Bool.{Bool, true, false}
use text.Mathlib.Text.{◌==◌ as text_eq}
use text.Mathlib.TextEquality.{eq_iff}

abbrev pub str_eq : String → String → Bool
str_eq a b = text_eq a b

pub str_eq_iff : (a b : String) → (str_eq a b ≡ true) ↔ (a ≡ b)
str_eq_iff a b = eq_iff a b

unfoldable pub String-discrete : Discrete String
String-discrete a b = decided (text_eq a b) refl
  where
    decided : (t : Bool) → text_eq a b ≡ t → Dec (a ≡ b)
    decided true h = yes ((eq_iff a b).0 h)
    decided false h = no (λ p. cc (h, (eq_iff a b).1 p))

abbrev pub deep_equal {ℓ} : {A : Type ℓ} → Discrete A → A → A → Bool
deep_equal dec a b = elim (dec a b) [ yes _ ↦ true | no _ ↦ false ]

module _ {ℓ} {A : Type ℓ} (dec : Discrete A) where
  pub deep_equal_iff : (a b : A) → (deep_equal dec a b ≡ true) ↔ (a ≡ b)
  deep_equal_iff a b =
      elim (dec a b)
        as (λ d. (elim d as (λ _. Bool) [ yes _ ↦ true | no _ ↦ false ] ≡ true) ↔ (a ≡ b)) [
          | yes p ↦ ((λ _. p), (λ _. refl))
          | no p ↦ ((λ h. cc), (λ q. absurd (p q)))
        ]

-- Two texts that the test tells apart.
pub str_ne : (a b : String) → str_eq a b ≡ false → a ≢ b
str_ne a b h p = cc (h, (eq_iff a b).1 p)

-- Slices and pointers, compared by what they hold; unlike the library's, these compute.
unfoldable pub slices_discrete {ℓ} : {A : Type ℓ} → Discrete A → Discrete (List A)
slices_discrete dec [] [] = yes refl
slices_discrete dec [] (y ∷ ys) = no (λ p. cc)
slices_discrete dec (x ∷ xs) [] = no (λ p. cc)
slices_discrete dec (x ∷ xs) (y ∷ ys) = both (dec x y) (slices_discrete dec xs ys)
  where
    both : Dec (x ≡ y) → Dec (xs ≡ ys) → Dec (x ∷ xs ≡ y ∷ ys)
    both (yes p) (yes q) = yes (λ i. p i ∷ q i)
    both (no n) q = no (λ h. n cc)
    both (yes p) (no n) = no (λ h. n cc)

unfoldable pub pointers_discrete {ℓ} : {A : Type ℓ} → Discrete A → Discrete (Option A)
pointers_discrete dec none none = yes refl
pointers_discrete dec none (some y) = no (λ p. cc)
pointers_discrete dec (some x) none = no (λ p. cc)
pointers_discrete dec (some x) (some y) = pointee (dec x y)
  where
    pointee : Dec (x ≡ y) → Dec (some x ≡ some y)
    pointee (yes p) = yes (ap some p)
    pointee (no n) = no (λ h. n cc)
