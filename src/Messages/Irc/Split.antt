-- ===== src/Messages/Irc/Split.antt =====
-- What `Send` makes of a message: the parts, and the last space of a chunk.
use threadr.Common.{
  ℕ, zero, suc, ◌+◌, ◌≤◌, ◌<◌, String, false, Option, none, some, List, [], ◌∷◌, ◌++◌, ◌≡◌, ◌≢◌,
  sym, ap, ◌∙◌, ◌⊎◌, length, ==_iff, All, arith,
}
use threadr.Common.Slices.{take, drop, get_elem?, take-append-drop, drop-drop, drop_of_get}
use threadr.Common.Exec.{Exec, pure, ◌>>◌}
use threadr.Messages.Irc.{Bytes, space, max_message_length, last_index, later_or, is_space_at}

abbrev pub HasNoSpace : Bytes → Type 0
HasNoSpace = All (λ (b : ℕ). b ≢ space)

-- The parts that a message is cut into, each of at most 400 bytes. It is cut at spaces, of which each
-- cut loses one; elsewhere only after 400 bytes with no space in them and none behind them.
abbrev pub Splits : Bytes → List Bytes → Type 0
Splits message [] = message ≡ []
Splits message (c ∷ cs) =
    ((cs ≡ []) × (message ≡ c) × (length c ≤ max_message_length))
    ⊎ (((rest : Bytes) × (message ≡ c ++ space ∷ rest)
          × (length c ≤ max_message_length)
          × Splits rest cs)
        ⊎ ((rest : Bytes) × (message ≡ c ++ rest)
            × (length c ≡ max_message_length)
            × HasNoSpace c
            × (is_space_at rest 0 ≡ false)
            × Splits rest cs))

abbrev pub SpaceAt : Bytes → ℕ → Type 0
SpaceAt bs i = (get_elem? bs i ≡ some space) × (i < length bs)

later_found :
    (b : ℕ) (bs : Bytes) (later : Option ℕ)
    → ((j : ℕ) → later ≡ some j → SpaceAt bs j)
    → (i : ℕ) → later_or later b ≡ some i
    → SpaceAt (b ∷ bs) i
later_found b bs (some j) found zero h = ground arith
later_found b bs (some j) found (suc i) h =
    let (here, bound) = found i (ground arith) in (here, omega arith)
later_found b bs none found zero h = ground (arith, ==_iff b space)
later_found b bs none found (suc i) h = ground arith

pub last_index_found : (bs : Bytes) (i : ℕ) → last_index bs ≡ some i → SpaceAt bs i
unfolding last_index
last_index_found [] i h = absurd cc
last_index_found (b ∷ bs) i h = later_found b bs (last_index bs) (last_index_found bs) i h

later_missing : (b : ℕ) (later : Option ℕ) → later_or later b ≡ none → (later ≡ none) × (b ≢ space)
later_missing b (some j) h = absurd cc
later_missing b none h = ground (arith, ==_iff b space)

pub last_index_missing : (bs : Bytes) → last_index bs ≡ none → HasNoSpace bs
unfolding last_index
last_index_missing [] h = tt
last_index_missing (b ∷ bs) h =
    let (none_later, not_here) = later_missing b (last_index bs) h in
    (not_here, last_index_missing bs none_later)

-- A message from `start` on, cut at the space that lies `i` further.
pub cut_at_space :
    (message : Bytes) (start i : ℕ)
    → get_elem? message (start + i) ≡ some space
    → drop start message ≡ take i (drop start message) ++ space ∷ drop (start + i + 1) message
cut_at_space message start i h =
    sym (take-append-drop i (drop start message))
    ∙ ap (λ rest. take i (drop start message) ++ rest)
        (drop-drop start i message ∙ drop_of_get (start + i) message space h)

module _ {W : Type 0} (privmsg : String → Bytes → Exec W (Unit {0})) (channel : String) where
  -- The parts sent in order, until one fails.
  unfoldable pub deliver : List Bytes → Exec W (Unit {0})
  deliver [] = pure tt
  deliver (c ∷ cs) = privmsg channel c >> deliver cs
