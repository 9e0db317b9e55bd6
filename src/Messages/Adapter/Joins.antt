-- ===== src/Messages/Adapter/Joins.antt =====
-- Which channels an adapter joins.
use threadr.Common.{
  ℕ, List, [], ◌∷◌, ◌++◌, map, ◌≡◌, ◌≢◌, refl, sym, ap, subst, All, ◌==◌, ==_iff, Bool-cases, inl,
  inr, arith,
}
use threadr.Common.Exec.{Exec, pure, ◌>>◌}
use threadr.Messages.Privmsg.{Text, trim_space}
use threadr.Messages.Privmsg.Laws.{IsTrimmed, trim_space-IsTrimmed}
use threadr.Messages.Adapter.{
  IrcAdapterConfig, cons_to_first, split_on, adapter_with, join_channels, on_connect,
}

-- The names with the mark between them.
abbrev pub joined_by : ℕ → List Text → Text
joined_by mark [] = []
joined_by mark (s ∷ []) = s
joined_by mark (s ∷ t ∷ ss) = s ++ mark ∷ joined_by mark (t ∷ ss)

-- The names of a text: at least one, none with the mark, and the text is made of them.
abbrev pub AreNames : ℕ → Text → List Text → Type 0
AreNames mark s names =
    (names ≢ []) × All (All (λ (r : ℕ). r ≢ mark)) names × (joined_by mark names ≡ s)

abbrev pub AreTrimmed : List Text → List Text → Type 0
AreTrimmed [] [] = Unit
AreTrimmed [] (t ∷ ts) = ⊥
AreTrimmed (s ∷ ss) [] = ⊥
AreTrimmed (s ∷ ss) (t ∷ ts) = IsTrimmed s t × AreTrimmed ss ts

begun_names :
    (mark : ℕ) (s : Text) (names : List Text)
    → AreNames mark s names
    → AreNames mark (mark ∷ s) ([] ∷ names)
begun_names mark s [] (some_name, clean, whole) = absurd (some_name refl)
begun_names mark s (n ∷ ns) (some_name, clean, whole) =
    ((λ h. cc), (tt, clean), ap (λ t. mark ∷ t) whole)

longer_names :
    (mark r : ℕ) (s : Text) (names : List Text)
    → r ≢ mark
    → AreNames mark s names
    → AreNames mark (r ∷ s) (cons_to_first r names)
longer_names mark r s [] other (some_name, clean, whole) = absurd (some_name refl)
longer_names mark r s (n ∷ []) other (some_name, (first, clean), whole) =
    ((λ h. cc), ((other, first), clean), ap (λ t. r ∷ t) whole)
longer_names mark r s (n ∷ m ∷ ms) other (some_name, (first, clean), whole) =
    ((λ h. cc), ((other, first), clean), ap (λ t. r ∷ t) whole)

split_on-AreNames : (mark : ℕ) (s : Text) → AreNames mark s (split_on mark s)
unfolding split_on
split_on-AreNames mark [] = ((λ h. cc), (tt, tt), refl)
split_on-AreNames mark (r ∷ rs) = elim (Bool-cases (r == mark)) [
  | inl here ↦ rw here (
      subst (λ (m : ℕ). AreNames mark (m ∷ rs) ([] ∷ split_on mark rs))
        (sym ((==_iff r mark).0 here)) (begun_names mark rs _ (split_on-AreNames mark rs)))
  | inr other ↦
      rw other
        (longer_names mark r rs _ (ground (arith, ==_iff r mark)) (split_on-AreNames mark rs))
]

map_trimmed : (names : List Text) → AreTrimmed names (map trim_space names)
map_trimmed [] = tt
map_trimmed (n ∷ ns) = (trim_space-IsTrimmed n, map_trimmed ns)

module _ {W : Type 0} (join : Text → Exec W (Unit {0})) where
  -- The channels joined in order, until one fails.
  unfoldable pub join_each : List Text → Exec W (Unit {0})
  join_each [] = pure tt
  join_each (channel ∷ channels) = join channel >> join_each channels

  join_channels-join_each :
      (channels : List Text) → join_channels join channels ≡ join_each (map trim_space channels)
  unfolding join_channels join_each
  join_channels-join_each [] = refl
  join_channels-join_each (c ∷ cs) =
      ap (λ rest. join (trim_space c) >> rest) (join_channels-join_each cs)

  -- On a connection the adapter joins the channels of its configuration: the names between the commas
  -- of the configured text, in order, each without the blanks around it, up to the first that fails.
  pub on_connect_joins :
      (skip_verify : Text) (config : IrcAdapterConfig) (w : W)
      → (names : List Text) × (channels : List Text) × AreNames 44 config.channels names
        × AreTrimmed names channels
        × (on_connect join (adapter_with skip_verify config) w ≡ (join_each channels w).1)
  unfolding on_connect
  on_connect_joins skip_verify config w =
      let names = split_on 44 config.channels in
      (
        names,
        map trim_space names,
        split_on-AreNames 44 config.channels,
        map_trimmed names,
        ap (λ (m : Exec W (Unit {0})). (m w).1) (join_channels-join_each names),
      )
