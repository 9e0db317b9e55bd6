-- ===== src/Common/Maps.antt =====
-- Go's `map[string]string`: `none` is the nil map, and an entry hides those of its key behind it.
use Prim.Native.String.{String}
use mathlib.Core.Path.{◌≡◌, refl}
use mathlib.Core.Logic.{◌↔◌, ◌⊎◌, inl, inr}
use mathlib.Core.Bool.{Bool, true, false, ◌&&◌}
use mathlib.Core.Option.{Option, none, some}
use mathlib.Core.List.{List, [], ◌∷◌}
use native.Mathlib.Omega.{arith}
use threadr.Common.Tests.{if◌then◌else◌, Bool-cases}
use threadr.Common.Equal.{
  str_eq, str_eq_iff, String-discrete, pointers_discrete, deep_equal, deep_equal_iff,
}

abbrev pub Entries : Type 0
Entries = List (String × String)

abbrev pub StringMap : Type 0
StringMap = Option Entries

abbrev pub entries : StringMap → Entries
entries none = []
entries (some es) = es

unfoldable pub lookup : String → Entries → Option String
lookup k [] = none
lookup k ((j, v) ∷ es) = if str_eq j k then some v else lookup k es

-- `m[k]` with the flag that a second result holds.
abbrev pub find : String → StringMap → Option String
find k m = lookup k (entries m)

abbrev pub or_empty : Option String → String
or_empty none = ""
or_empty (some v) = v

-- `m[k]`, which is the empty string where the key is absent.
abbrev pub get : StringMap → String → String
get m k = or_empty (find k m)

unfoldable pub insert : String → String → Entries → Entries
insert k v [] = (k, v) ∷ []
insert k v ((j, w) ∷ es) = if str_eq j k then (k, v) ∷ es else (j, w) ∷ insert k v es

pub lookup-insert :
    (k j v : String) (es : Entries)
    → lookup j (insert k v es) ≡ (if str_eq k j then some v else lookup j es)
unfolding lookup insert
lookup-insert k j v [] = refl
lookup-insert k j v ((i, w) ∷ es) =
    ground (arith, str_eq_iff k j, str_eq_iff i k, str_eq_iff i j, lookup-insert k j v es)

unfoldable pub Found-discrete : Discrete (Option String)
unfolding String-discrete pointers_discrete
Found-discrete = pointers_discrete String-discrete

-- The two maps give one answer at each key of `es`.
unfoldable pub agree_on : Entries → Entries → Entries → Bool
unfolding Found-discrete lookup
agree_on [] a b = true
agree_on ((k, v) ∷ es) a b = deep_equal Found-discrete (lookup k a) (lookup k b) && agree_on es a b

-- `reflect.DeepEqual` of maps: both nil, or neither and with the same entries.
unfoldable pub maps_equal : StringMap → StringMap → Bool
unfolding agree_on
maps_equal none none = true
maps_equal none (some b) = false
maps_equal (some a) none = false
maps_equal (some a) (some b) = agree_on a a b && agree_on b a b

-- What two maps that are deeply equal have in common, with no test in sight.
abbrev pub SameMap : StringMap → StringMap → Type 0
SameMap none none = Unit
SameMap none (some b) = ⊥
SameMap (some a) none = ⊥
SameMap (some a) (some b) = (k : String) → lookup k a ≡ lookup k b

agree_on_sound :
    (es a b : Entries)
    → agree_on es a b ≡ true
    → (k : String) → (lookup k es ≡ none) ⊎ (lookup k a ≡ lookup k b)
unfolding lookup agree_on
agree_on_sound [] a b h k = inl refl
agree_on_sound ((j, v) ∷ es) a b h k = ground (
  arith,
  str_eq_iff j k,
  deep_equal_iff Found-discrete (lookup j a) (lookup j b),
  λ (p : agree_on es a b ≡ true). agree_on_sound es a b p k,
)

agree_on_complete :
    (es a b : Entries) → ((k : String) → lookup k a ≡ lookup k b) → agree_on es a b ≡ true
unfolding agree_on
agree_on_complete [] a b h = refl
agree_on_complete ((j, v) ∷ es) a b h = ground (
  arith,
  h j,
  deep_equal_iff Found-discrete (lookup j a) (lookup j b),
  agree_on_complete es a b h,
)

-- `reflect.DeepEqual` holds of two maps exactly when both are nil or both hold the same entries.
pub maps_equal_iff : (a b : StringMap) → (maps_equal a b ≡ true) ↔ SameMap a b
unfolding maps_equal
maps_equal_iff none none = ((λ _. tt), (λ _. refl))
maps_equal_iff none (some b) = ((λ h. cc), (λ h. absurd h))
maps_equal_iff (some a) none = ((λ h. cc), (λ h. absurd h))
maps_equal_iff (some a) (some b) = (
  (λ h k. ground (
    arith,
    λ (p : agree_on a a b ≡ true). agree_on_sound a a b p k,
    λ (p : agree_on b a b ≡ true). agree_on_sound b a b p k,
  )),
  (λ h. ground (arith, agree_on_complete a a b h, agree_on_complete b a b h)),
)

abbrev pub or_else : Option String → Option String → Option String
or_else none d = d
or_else (some v) d = some v

-- No key stands twice.
abbrev pub IsDistinct : Entries → Type 0
IsDistinct [] = Unit
IsDistinct ((k, v) ∷ es) = (lookup k es ≡ none) × IsDistinct es

pub insert-IsDistinct : (k v : String) (es : Entries) → IsDistinct es → IsDistinct (insert k v es)
unfolding insert
insert-IsDistinct k v [] d = (unfold lookup in refl, tt)
insert-IsDistinct k v ((j, w) ∷ es) d = elim (Bool-cases (str_eq j k)) [
  | inl e ↦ rw e (rw (← (str_eq_iff j k).0 e) d)
  | inr n ↦ rw n (
    ground (arith, lookup-insert k j v es, str_eq_iff k j, str_eq_iff j k),
    insert-IsDistinct k v es d.1,
  )
]
