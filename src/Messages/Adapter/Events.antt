-- ===== src/Messages/Adapter/Events.antt =====
-- What the bot publishes of one PRIVMSG: the callback of `Connect`, then that of `Listen`, in the order
-- in which they are added.
use threadr.Common.{
  ℕ, suc, Option, none, some, List, ◌∷◌, ◌≡◌, refl, ap, ◌∙◌, Option-cases, inl, inr,
}
use threadr.Common.Exec.{Exec}
use threadr.Messages.Privmsg.{
  Text, IrcEvent, IrcMessage, Message, joined, command_of, on_command, listened, irc_message,
}
use threadr.Messages.Privmsg.Laws.{Carries, command_of_carried, command_of_iff}
use threadr.Messages.Adapter.{on_chat_message}

module _ {W : Type 0} (publish_command publish_chat : Message → Exec W (Unit {0})) where
  abbrev pub chat_published : Option IrcMessage → ℕ × W → Option (ℕ × W)
  chat_published none state = none
  chat_published (some m) state = some (on_chat_message publish_chat m state)

  abbrev pub after_command : IrcEvent → ℕ → Option W → Option (ℕ × W)
  after_command e msg_counter none = none
  after_command e msg_counter (some w) = chat_published (irc_message e) (msg_counter, w)

  -- `none` is the panic on a message without the two parameters.
  unfoldable pub on_privmsg : Text → IrcEvent → ℕ × W → Option (ℕ × W)
  on_privmsg own_nick e (msg_counter, w) =
      after_command e msg_counter (on_command publish_command own_nick e w)

  -- The command that a message carries is published, and nothing for a message that carries none.
  pub data CommandTurn (own_nick message target nick : Text) (w v : W) : Type 0 where
    silent :
        ((command : Text) → ¬ Carries own_nick message command)
        → w ≡ v
        → CommandTurn own_nick message target nick w v
    carried :
        (command : Text)
        → Carries own_nick message command
        → (publish_command (record { message = command; nick = nick; channel = target }) w).1 ≡ v
        → CommandTurn own_nick message target nick w v

  module _ (own_nick : Text) (e : IrcEvent) (target message : Text) (more : List Text)
      (params : e.params ≡ target ∷ message ∷ more) where
    command_turn :
        (w : W)
        → (v : W) × CommandTurn own_nick message target e.nick w v
          × (on_command publish_command own_nick e w ≡ some v)
    unfolding on_command
    command_turn w = elim (Option-cases (command_of own_nick message)) [
      | inl nothing ↦ (
        w,
        silent (λ command h. cc (nothing, (command_of_iff own_nick message command).1 h)) refl,
        rw (params, nothing) refl,
      )
      | inr (command, found) ↦ (
        (publish_command (record { message = command; nick = e.nick; channel = target }) w).1,
        carried command (command_of_carried own_nick message command found) refl,
        rw (params, found) refl,
      )
    ]

    abbrev pub chat_of : Message
    chat_of = record { message = joined (message ∷ more); nick = e.nick; channel = target }

    -- Of a message to a channel, the command for the bot is published first, if the message carries
    -- one, and then the whole message, counted, whether or not either publication fails.
    pub on_privmsg_publishes :
        (msg_counter : ℕ) (w : W)
        → (v : W) × CommandTurn own_nick message target e.nick w v
          × (on_privmsg own_nick e (msg_counter, w)
              ≡ some (suc msg_counter, (publish_chat chat_of v).1))
    unfolding on_privmsg irc_message on_chat_message
    on_privmsg_publishes msg_counter w =
        let (v, turn, same) = command_turn w in
        (
          v,
          turn,
          ap (after_command e msg_counter) same
              ∙ ap (λ ps. chat_published (listened e ps) (msg_counter, v)) params,
        )
