-- ===== src/Messages/Irc/Sent.antt =====
-- What `Send` sends.
use threadr.Common.{
  ℕ, zero, suc, ◌+◌, ◌≤◌, ◌<◌, String, true, false, List, [], ◌∷◌, ◌≡◌, refl, inl, inr, length, ltb,
  Bool-cases, arith,
}
use threadr.Common.Slices.{drop_of_length-le}
use threadr.Common.Exec.{Result, ok, err, Exec, continue, pure, ◌>>=◌}
use threadr.Messages.Irc.{Bytes, max_message_length, send_chunks, try_send, send}
use threadr.Messages.Irc.Split.{Splits, deliver}
use threadr.Messages.Irc.Turns.{Sends, send_chunks_done, next_turn}

module _ {W : Type 0} (privmsg : String → Bytes → Exec W (Unit {0})) (channel : String) where
  enough_turns :
      (fuel : ℕ) (message : Bytes) (start : ℕ)
      → start ≤ length message
      → length message < start + fuel
      → Sends privmsg channel fuel message start
  enough_turns zero message start inside enough = absurd (omega arith)
  enough_turns (suc fuel) message start inside enough =
      elim (Bool-cases (ltb start (length message))) [
        | inl more ↦
            next_turn privmsg channel fuel message start (ground arith)
              (λ next later in_range. enough_turns fuel message next in_range (omega arith))
        | inr over ↦ (
          [],
          drop_of_length-le start message (ground arith),
          send_chunks_done privmsg channel (suc fuel) message start (ground arith),
        )
      ]

  send_long :
      (message : Bytes) (cs : List Bytes) (w : W)
      → ltb max_message_length (length message) ≡ true
      → send_chunks privmsg (suc (length message)) channel message 0 ≡ deliver privmsg channel cs
      → send privmsg channel message w ≡ (deliver privmsg channel cs w).1
  unfolding send try_send
  send_long message cs w long sent = rw (send, try_send, long, sent) refl

  last_world : (r : Result (Unit {0})) (w : W) → w ≡ (continue r (λ _. pure tt) w).1
  unfolding pure
  last_world (ok tt) w = refl
  last_world (err e) w = refl

  send_short :
      (message : Bytes) (w : W)
      → ltb max_message_length (length message) ≡ false
      → send privmsg channel message w ≡ (deliver privmsg channel (message ∷ []) w).1
  unfolding send try_send deliver ◌>>=◌
  send_short message w short =
      rw (send, try_send, short)
        (last_world (privmsg channel message w).0 (privmsg channel message w).1)

  -- `Send` hands the parts of a message to the connection in order, up to the first part that fails:
  -- parts of at most 400 bytes, cut at spaces, each cut at the cost of that one space, and elsewhere
  -- only after 400 bytes with no space among them or right behind them. No byte else is lost.
  pub send_refines :
      (message : Bytes)
      → (cs : List Bytes) × Splits message cs
        × ((w : W) → send privmsg channel message w ≡ (deliver privmsg channel cs w).1)
  send_refines message = elim (Bool-cases (ltb max_message_length (length message))) [
    | inl long ↦
        let (cs, splits, sent) =
          enough_turns (suc (length message)) message 0 (omega arith) (omega arith) in
        (cs, splits, (λ w. send_long message cs w long sent))
    | inr short ↦ (message ∷ [], inl (refl, refl, ground arith), (λ w. send_short message w short))
  ]
