-- ===== src/Common/Texts.antt =====
-- Texts as code points, and what `strings` takes apart.
use Prim.Native.Nat.{ℕ, zero, suc, ◌-◌}
use mathlib.Core.Option.{Option, none, some}
use mathlib.Core.List.{List, [], ◌∷◌}
use threadr.Common.Tests.{◌==◌, if◌then◌else◌}
use threadr.Common.Lists.{length}

abbrev pub Text : Type 0
Text = List ℕ

-- `strings.HasPrefix` and `strings.TrimPrefix` at once: what follows the prefix, if it is there.
unfoldable pub after_prefix : Text → Text → Option Text
after_prefix s [] = some s
after_prefix [] (p ∷ ps) = none
after_prefix (b ∷ bs) (p ∷ ps) = let rest = after_prefix bs ps in if b == p then rest else none

abbrev pub cons_to_first : ℕ → List Text → List Text
cons_to_first r [] = (r ∷ []) ∷ []
cons_to_first r (part ∷ parts) = (r ∷ part) ∷ parts

-- `strings.Split` at one code point.
unfoldable pub split_on : ℕ → Text → List Text
split_on mark [] = [] ∷ []
split_on mark (r ∷ rs) =
    let rest = split_on mark rs in if r == mark then [] ∷ rest else cons_to_first r rest

-- Where so many code points belong to a part that goes, they are passed over.
unfoldable pub without : Text → ℕ → Text → Text
without old skipped [] = []
without old (suc skipped) (r ∷ rs) = without old skipped rs
without old zero (r ∷ rs) =
    let kept = without old zero rs in
    let cut = without old (length old - 1) rs in
    elim (after_prefix (r ∷ rs) old) [ none ↦ r ∷ kept | some rest ↦ cut ]

-- `strings.Replace(s, old, "", -1)`, for an `old` that is not empty.
unfoldable pub remove_all : Text → Text → Text
remove_all old s = without old zero s
