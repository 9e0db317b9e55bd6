-- ===== src/Messages/Privmsg/Callbacks.antt =====
-- What the two callbacks do with an event.
use threadr.Common.{some, List, [], ◌∷◌, ◌≡◌, refl, sym, subst, Option-cases, inl, inr}
use threadr.Common.Exec.{Exec}
use threadr.Messages.Privmsg.{
  Text, IrcEvent, IrcMessage, Message, command_of, on_command, cut_after, listened, irc_message,
}
use threadr.Messages.Privmsg.Laws.{Carries, command_of_carried, IsCut, cut_after-IsCut}

module _ {W : Type 0} (publish_event : Message → Exec W (Unit {0})) where
  -- A message that carries no command for the bot publishes nothing.
  on_command_silent :
      (own_nick : Text) (e : IrcEvent) (target message : Text) (more : List Text) (w : W)
      → e.params ≡ target ∷ message ∷ more
      → ((command : Text) → ¬ Carries own_nick message command)
      → on_command publish_event own_nick e w ≡ some w
  unfolding on_command
  on_command_silent own_nick e target message more w params silent =
      elim (Option-cases (command_of own_nick message)) [
        | inl nothing ↦ rw (params, nothing) refl
        | inr (command, found) ↦
            absurd (silent command (command_of_carried own_nick message command found))
      ]

listened_user :
    (e : IrcEvent) (params : List Text) (m : IrcMessage)
    → listened e params ≡ some m
    → (m.full_user ≡ e.source) × IsCut 33 e.source m.user
listened_user e [] m h = absurd cc
listened_user e (channel ∷ rest) m h =
    let source_kept : e.source ≡ m.full_user = cc in
    let user_is : cut_after 33 e.source ≡ m.user = cc in
    (sym source_kept, subst (IsCut 33 e.source) user_is (cut_after-IsCut 33 e.source))

-- The message that `Listen` hands on keeps the source, and its user is what stands in the source
-- behind the first exclamation mark, or nothing if there is none.
irc_message_user :
    (e : IrcEvent) (m : IrcMessage)
    → irc_message e ≡ some m
    → (m.full_user ≡ e.source) × IsCut 33 e.source m.user
unfolding irc_message
irc_message_user e m h = listened_user e e.params m h
