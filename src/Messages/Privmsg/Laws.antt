-- ===== src/Messages/Privmsg/Laws.antt =====
-- What a command is, of the message that carries it, and what a user is, of the source.
use threadr.Common.{
  ℕ, true, false, Option, none, some, [], ◌∷◌, ◌++◌, append-nil, append_assoc, ◌≡◌, ◌≢◌, ◌⊎◌, ◌↔◌,
  inl, inr, refl, sym, ap, ◌∙◌, ◌==◌, ==_iff, subst, All, Bool-cases, arith, if◌then◌else◌,
}
use threadr.Common.Space.{is_space}
use threadr.Messages.Privmsg.{
  Text, after_prefix, trim_left, cons_trimmed, trim_right, trim_space, cut_after, trimmed,
  command_of,
}

after_prefix_found : (s p rest : Text) → after_prefix s p ≡ some rest → s ≡ p ++ rest
unfolding after_prefix
after_prefix_found s [] rest h = ground arith
after_prefix_found [] (p ∷ ps) rest h = absurd cc
after_prefix_found (b ∷ bs) (p ∷ ps) rest h = elim (Bool-cases (b == p)) [
  | inl same ↦
      let head = (==_iff b p).0 same in
      let tail = after_prefix_found bs ps rest (rw same at h) in λ i. head i ∷ tail i
  | inr other ↦ let gone : none ≡ some rest = rw other at h in absurd cc
]

after_prefix_append : (p rest : Text) → after_prefix (p ++ rest) p ≡ some rest
unfolding after_prefix
after_prefix_append [] rest = refl
after_prefix_append (p ∷ ps) rest = rw ((==_iff p p).1 refl) (after_prefix_append ps rest)

abbrev pub IsBlank : Text → Type 0
IsBlank = All (λ (r : ℕ). is_space r ≡ true)

-- A text that starts with no space.
abbrev pub StartsInk : Text → Type 0
StartsInk [] = Unit
StartsInk (r ∷ rs) = is_space r ≡ false

-- A text that ends with no space.
abbrev pub EndsInk : Text → Type 0
EndsInk [] = Unit
EndsInk (r ∷ []) = is_space r ≡ false
EndsInk (r ∷ s ∷ ss) = EndsInk (s ∷ ss)

trim_left_split :
    (s : Text)
    → (blank : Text) × IsBlank blank × (s ≡ blank ++ trim_left s) × StartsInk (trim_left s)
unfolding trim_left
trim_left_split [] = ([], tt, refl, tt)
trim_left_split (r ∷ rs) = elim (Bool-cases (is_space r)) [
  | inl space ↦
      let (blank, is, split, ink) = trim_left_split rs in
      (r ∷ blank, (space, is), rw space (ap (λ t. r ∷ t) split), rw space ink)
  | inr ink ↦ ([], tt, rw ink refl, rw ink ink)
]

-- What is taken off at the end is blank, what is left ends with no space, and its start stays.
trim_right_split :
    (s : Text)
    → (blank : Text) × IsBlank blank × (s ≡ trim_right s ++ blank) × EndsInk (trim_right s)
unfolding trim_right
trim_right_split [] = ([], tt, refl, tt)
trim_right_split (r ∷ rs) =
    let (blank, is, split, ink) = trim_right_split rs in
    consed r rs (trim_right rs) blank is split ink
  where
    consed :
        (r : ℕ) (rs t blank : Text)
        → IsBlank blank
        → rs ≡ t ++ blank
        → EndsInk t
        → (b : Text) × IsBlank b × (r ∷ rs ≡ cons_trimmed r t ++ b) × EndsInk (cons_trimmed r t)
    consed r rs [] blank is split ink = elim (Bool-cases (is_space r)) [
      | inl space ↦ rw space (r ∷ blank, (space, is), ap (λ t. r ∷ t) split, tt)
      | inr visible ↦ rw visible (blank, is, ap (λ t. r ∷ t) split, visible)
    ]
    consed r rs (s ∷ ss) blank is split ink = (blank, is, ap (λ t. r ∷ t) split, ink)

trim_right_starts : (s : Text) → StartsInk s → StartsInk (trim_right s)
unfolding trim_right
trim_right_starts [] ink = tt
trim_right_starts (r ∷ rs) ink = kept (trim_right rs)
  where
    kept : (t : Text) → StartsInk (cons_trimmed r t)
    kept [] = unit_or ink
      where
        unit_or : is_space r ≡ false → StartsInk (if is_space r then [] else r ∷ [])
        unit_or visible = rw visible visible
    kept (s ∷ ss) = ink

trim_left_blank : (b t : Text) → IsBlank b → trim_left (b ++ t) ≡ trim_left t
unfolding trim_left
trim_left_blank [] t is = refl
trim_left_blank (r ∷ rs) t (space, is) = rw space (trim_left_blank rs t is)

trim_left_ink : (r : ℕ) (t : Text) → is_space r ≡ false → trim_left (r ∷ t) ≡ r ∷ t
unfolding trim_left
trim_left_ink r t visible = rw visible refl

trim_right_ink : (c b : Text) → EndsInk c → IsBlank b → trim_right (c ++ b) ≡ c
unfolding trim_right
trim_right_ink [] [] ink is = refl
trim_right_ink [] (r ∷ rs) ink (space, is) = rw (trim_right_ink [] rs tt is, space) refl
trim_right_ink (r ∷ []) b ink is = rw (trim_right_ink [] b tt is, ink) refl
trim_right_ink (r ∷ s ∷ ss) b ink is = rw (trim_right_ink (s ∷ ss) b ink is) refl

trim_space_unique :
    (before c behind : Text)
    → IsBlank before
    → IsBlank behind
    → StartsInk c
    → EndsInk c
    → trim_space (before ++ (c ++ behind)) ≡ c
unfolding trim_space trim_right trim_left
trim_space_unique before [] behind blank is starts ends =
    ap trim_right (trim_left_blank before behind blank)
    ∙ ap (λ t. trim_right (trim_left t)) (sym (append-nil behind))
    ∙ ap trim_right (trim_left_blank behind [] is)
trim_space_unique before (r ∷ rs) behind blank is starts ends =
    ap trim_right
      (trim_left_blank before (r ∷ (rs ++ behind)) blank ∙ trim_left_ink r (rs ++ behind) starts)
    ∙ trim_right_ink (r ∷ rs) behind ends is

-- A text without the blanks before it and behind it.
abbrev pub IsTrimmed : Text → Text → Type 0
IsTrimmed s t =
    (before : Text) × (behind : Text) × IsBlank before
    × IsBlank behind
    × StartsInk t
    × EndsInk t
    × (s ≡ before ++ (t ++ behind))

pub trim_space-IsTrimmed : (s : Text) → IsTrimmed s (trim_space s)
unfolding trim_space
trim_space-IsTrimmed s =
    let (before, blank, split, starts) = trim_left_split s in
    let (behind, is, trimmed, ends) = trim_right_split (trim_left s) in
    (
      before,
      behind,
      blank,
      is,
      trim_right_starts (trim_left s) starts,
      ends,
      split ∙ ap (λ t. before ++ t) trimmed,
    )

-- A command, and the blanks around it, behind the bot's name and a colon.
abbrev pub Carries : Text → Text → Text → Type 0
Carries own_nick message command =
    (before : Text) × (behind : Text) × IsBlank before
    × IsBlank behind
    × StartsInk command
    × EndsInk command
    × (message ≡ own_nick ++ 58 ∷ (before ++ (command ++ behind)))

trim_space_carried :
    (own_nick rest : Text) → Carries own_nick (own_nick ++ 58 ∷ rest) (trim_space rest)
trim_space_carried own_nick rest =
    let (before, behind, blank, is, starts, ends, split) = trim_space-IsTrimmed rest in
    (before, behind, blank, is, starts, ends, ap (λ t. own_nick ++ 58 ∷ t) split)

trimmed-some :
    (found : Option Text) (command : Text)
    → trimmed found ≡ some command
    → (rest : Text) × (found ≡ some rest) × (trim_space rest ≡ command)
trimmed-some none command h = absurd cc
trimmed-some (some rest) command h = (rest, refl, ground arith)

command_of_addressed :
    (own_nick rest : Text) → command_of own_nick (own_nick ++ 58 ∷ rest) ≡ some (trim_space rest)
unfolding command_of
command_of_addressed own_nick rest =
    let found : after_prefix (own_nick ++ 58 ∷ rest) (own_nick ++ 58 ∷ []) ≡ some rest =
      ap (λ m. after_prefix m (own_nick ++ 58 ∷ [])) (sym (append_assoc own_nick (58 ∷ []) rest))
      ∙ after_prefix_append (own_nick ++ 58 ∷ []) rest in
    ap trimmed found

pub command_of_carried :
    (own_nick message command : Text)
    → command_of own_nick message ≡ some command
    → Carries own_nick message command
unfolding command_of
command_of_carried own_nick message command h =
    let (rest, found, same) = trimmed-some (after_prefix message (own_nick ++ 58 ∷ [])) command h in
    let split =
      after_prefix_found message (own_nick ++ 58 ∷ []) rest found
      ∙ append_assoc own_nick (58 ∷ []) rest in
    subst (λ m. Carries own_nick m command) (sym split)
      (subst (Carries own_nick (own_nick ++ 58 ∷ rest)) same (trim_space_carried own_nick rest))

-- The command of a message is what it says behind the bot's name and a colon, without the blanks
-- around it, and a message that does not start so has none.
pub command_of_iff :
    (own_nick message command : Text)
    → (command_of own_nick message ≡ some command) ↔ Carries own_nick message command
command_of_iff own_nick message command = (
  command_of_carried own_nick message command,
  (λ (before, behind, blank, is, starts, ends, carried).
      ap (command_of own_nick) carried
      ∙ command_of_addressed own_nick (before ++ (command ++ behind))
      ∙ ap some (trim_space_unique before command behind blank is starts ends)),
)

-- A text without the mark, and one with it.
abbrev pub IsCut : ℕ → Text → Text → Type 0
IsCut mark s rest =
    (((before : Text) × All (λ (r : ℕ). r ≢ mark) before × (s ≡ before ++ mark ∷ rest)))
    ⊎ ((rest ≡ []) × All (λ (r : ℕ). r ≢ mark) s)

-- The user of a message is what stands behind the first mark of its source, and empty where the
-- source has none.
pub cut_after-IsCut : (mark : ℕ) (s : Text) → IsCut mark s (cut_after mark s)
unfolding cut_after
cut_after-IsCut mark [] = inr (refl, tt)
cut_after-IsCut mark (r ∷ rs) = elim (Bool-cases (r == mark)) [
  | inl here ↦ rw here (inl ([], tt, λ i. (==_iff r mark).0 here i ∷ rs))
  | inr other ↦
      let differs : r ≢ mark = ground (arith, ==_iff r mark) in
      rw other (elim (cut_after-IsCut mark rs) [
        | inl (before, none_before, split) ↦
            inl (r ∷ before, (differs, none_before), ap (λ t. r ∷ t) split)
        | inr (empty, none_at_all) ↦ inr (empty, (differs, none_at_all))
      ])
]
