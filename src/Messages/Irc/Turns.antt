-- ===== src/Messages/Irc/Turns.antt =====
-- The loop of `Send`, turn by turn.
use threadr.Common.{
  ℕ, zero, suc, ◌+◌, ◌-◌, ◌≤◌, ◌<◌, String, true, false, Option, none, some, List, [], ◌∷◌, ◌++◌,
  ◌≡◌, refl, sym, ap, ◌∙◌, inl, inr, length, ltb, ==_iff, Bool-cases, Option-cases, arith,
}
use threadr.Common.Slices.{
  take, drop, get_elem?, take-append-drop, drop-drop, length-drop, length-take, take_of_length-le,
  get-drop, get-take, get_of_length-le, index_lt,
}
use threadr.Common.Exec.{Exec}
use threadr.Messages.Irc.{
  Bytes, space, max_message_length, slice, last_index, chunk_end, is_space, is_space_at, next_start,
  send_chunks,
}
use threadr.Messages.Irc.Split.{Splits, last_index_found, last_index_missing, cut_at_space, deliver}

module _ {W : Type 0} (privmsg : String → Bytes → Exec W (Unit {0})) (channel : String) where
  -- What is left from `start` goes out in parts.
  abbrev pub Sends : ℕ → Bytes → ℕ → Type 0
  Sends fuel message start =
      (cs : List Bytes) × Splits (drop start message) cs
      × (send_chunks privmsg fuel channel message start ≡ deliver privmsg channel cs)

  pub send_chunks_done :
      (fuel : ℕ) (message : Bytes) (start : ℕ)
      → length message ≤ start
      → send_chunks privmsg fuel channel message start ≡ deliver privmsg channel []
  unfolding send_chunks deliver
  send_chunks_done zero message start h = refl
  send_chunks_done (suc fuel) message start h = ground arith

  turn :
      (fuel : ℕ) (message : Bytes) (start : ℕ) (c : Bytes) (next : ℕ) (cs : List Bytes)
      → start < length message
      → slice message start (chunk_end message start) ≡ c
      → next_start message (chunk_end message start) ≡ next
      → send_chunks privmsg fuel channel message next ≡ deliver privmsg channel cs
      → send_chunks privmsg (suc fuel) channel message start ≡ deliver privmsg channel (c ∷ cs)
  unfolding send_chunks deliver
  turn fuel message start c next cs more is_c is_next rest =
      let go : ltb start (length message) ≡ true = ground arith in rw (go, is_c, is_next, rest) refl

  -- The three ways in which a chunk ends.
  last_turn :
      (fuel : ℕ) (message : Bytes) (start : ℕ)
      → start < length message
      → length message < start + max_message_length
      → Sends (suc fuel) message start
  unfolding chunk_end next_start deliver
  last_turn fuel message start more short =
      let is_last : ltb (length message) (start + max_message_length) ≡ true = ground arith in
      let outside = get_of_length-le (length message) message (omega arith) in
      let left = length-drop start message in
      let all_of_it =
        take_of_length-le (length message - start) (drop start message) (omega (arith, left)) in
      (
        drop start message ∷ [],
        inl (refl, refl, omega (arith, left)),
        turn fuel message start (drop start message) (length message) [] more (rw is_last all_of_it)
            (rw (is_last, outside) refl)
            (send_chunks_done fuel message (length message) (omega arith)),
      )

  spaced_turn :
      (fuel : ℕ) (message : Bytes) (start i : ℕ)
      → start < length message
      → start + max_message_length ≤ length message
      → last_index (take max_message_length (drop start message)) ≡ some i
      → Sends fuel message (start + i + 1)
      → Sends (suc fuel) message start
  unfolding chunk_end next_start
  spaced_turn fuel message start i more long found (cs, splits, sent) =
      let not_last : ltb (length message) (start + max_message_length) ≡ false = ground arith in
      let full : start + max_message_length - start ≡ max_message_length = omega arith in
      let part : start + i - start ≡ i = omega arith in
      let left = length-drop start message in
      let whole = length-take max_message_length (drop start message) (omega (arith, left)) in
      let (here, bound) = last_index_found _ i found in
      let inside : i < max_message_length = omega (arith, whole, bound) in
      let at_i : get_elem? message (start + i) ≡ some space =
        sym (get-drop start i message)
        ∙ sym (get-take max_message_length i (drop start message) inside)
        ∙ here in
      (
        take i (drop start message) ∷ cs,
        inr (
            inl (
              drop (start + i + 1) message,
              cut_at_space message start i at_i,
              omega (arith, length-take i (drop start message) (omega (arith, left, inside))),
              splits,
            )),
        turn fuel message start (take i (drop start message)) (start + i + 1) cs more
            (rw (not_last, full, found, part) refl) (rw (not_last, full, found, at_i) refl) sent,
      )

  is_space_iff : (o : Option ℕ) → is_space o ≡ true → o ≡ some space
  is_space_iff none h = absurd cc
  is_space_iff (some b) h = ground (arith, ==_iff b space)

  -- A chunk with no space in it, and where the next one starts.
  full_turn :
      (fuel : ℕ) (message : Bytes) (start : ℕ)
      → start < length message
      → start + max_message_length ≤ length message
      → last_index (take max_message_length (drop start message)) ≡ none
      → ((next : ℕ) → start < next → next ≤ length message → Sends fuel message next)
      → Sends (suc fuel) message start
  unfolding chunk_end next_start
  full_turn fuel message start more long missing rest =
      let not_last : ltb (length message) (start + max_message_length) ≡ false = ground arith in
      let full : start + max_message_length - start ≡ max_message_length = omega arith in
      let left = length-drop start message in
      let whole = length-take max_message_length (drop start message) (omega (arith, left)) in
      elim (Bool-cases (is_space_at message (start + max_message_length))) [
        | inl spaced ↦
            let at_end = is_space_iff (get_elem? message (start + max_message_length)) spaced in
            let (cs, splits, sent) =
              rest (start + max_message_length + 1) (omega arith)
                (omega (arith, index_lt _ message space at_end)) in
            (
              take max_message_length (drop start message) ∷ cs,
              inr (
                  inl (
                    drop (start + max_message_length + 1) message,
                    cut_at_space message start max_message_length at_end,
                    omega (arith, whole),
                    splits,
                  )),
              turn fuel message start (take max_message_length (drop start message))
                  (start + max_message_length + 1) cs more (rw (not_last, full, missing, full) refl)
                  (rw (not_last, full, missing, spaced) refl) sent,
            )
        | inr other ↦
            let no_more : start + max_message_length + 0 ≡ start + max_message_length =
              omega arith in
            let (cs, splits, sent) = rest (start + max_message_length) (omega arith) long in
            (
              take max_message_length (drop start message) ∷ cs,
              inr (
                  inr (
                    drop (start + max_message_length) message,
                    sym (take-append-drop max_message_length (drop start message))
                        ∙ ap (λ r. take max_message_length (drop start message) ++ r)
                            (drop-drop start max_message_length message),
                    whole,
                    last_index_missing _ missing,
                    rw (get-drop (start + max_message_length) 0 message, no_more) other,
                    splits,
                  )),
              turn fuel message start (take max_message_length (drop start message))
                  (start + max_message_length) cs more (rw (not_last, full, missing, full) refl)
                  (rw (not_last, full, missing, other) refl) sent,
            )
      ]

  pub next_turn :
      (fuel : ℕ) (message : Bytes) (start : ℕ)
      → start < length message
      → ((next : ℕ) → start < next → next ≤ length message → Sends fuel message next)
      → Sends (suc fuel) message start
  next_turn fuel message start more rest =
      elim (Bool-cases (ltb (length message) (start + max_message_length))) [
        | inl short ↦ last_turn fuel message start more (ground arith)
        | inr long ↦
            elim (Option-cases (last_index (take max_message_length (drop start message)))) [
              | inl missing ↦ full_turn fuel message start more (ground arith) missing rest
              | inr (i, found) ↦
                  spaced_turn fuel message start i more (ground arith) found
                    (rest (start + i + 1) (omega arith) (in_message i found (ground arith)))
            ]
      ]
    where
      in_message :
          (i : ℕ)
          → last_index (take max_message_length (drop start message)) ≡ some i
          → start + max_message_length ≤ length message
          → start + i + 1 ≤ length message
      in_message i found long =
          let (here, bound) = last_index_found _ i found in
          let left = length-drop start message in
          let whole = length-take max_message_length (drop start message) (omega (arith, left)) in
          omega (arith, whole, bound)
