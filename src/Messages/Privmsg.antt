-- ===== src/Messages/Privmsg.antt =====
-- The callbacks of irc.go for the event PRIVMSG: the one of `Connect`, which publishes commands, and
-- the one of `Listen`. Texts are the code points of Go's strings, as they are valid UTF-8.
pub mod Laws
pub mod Callbacks
use threadr.Common.{
  ℕ, Bool, true, false, Option, none, some, List, [], ◌∷◌, ◌++◌, ◌==◌, if◌then◌else◌,
}
use threadr.Common.Space.{is_space}
unfoldable pub use threadr.Common.Texts.{Text, after_prefix}
use threadr.Common.Exec.{Result, Exec}

unfoldable pub trim_left : Text → Text
trim_left [] = []
trim_left (r ∷ rs) = let rest = trim_left rs in if is_space r then rest else r ∷ rs

abbrev pub cons_trimmed : ℕ → Text → Text
cons_trimmed r [] = if is_space r then [] else r ∷ []
cons_trimmed r (s ∷ ss) = r ∷ s ∷ ss

unfoldable pub trim_right : Text → Text
trim_right [] = []
trim_right (r ∷ rs) = cons_trimmed r (trim_right rs)

-- `strings.TrimSpace`.
unfoldable pub trim_space : Text → Text
trim_space s = trim_right (trim_left s)

-- `strings.Cut` at a code point, of which the text behind it is used, "" where it is missing.
unfoldable pub cut_after : ℕ → Text → Text
cut_after mark [] = []
cut_after mark (r ∷ rs) = let rest = cut_after mark rs in if r == mark then rs else rest

-- `strings.Join(…, " ")`.
abbrev pub joined : List Text → Text
joined [] = []
joined (s ∷ []) = s
joined (s ∷ t ∷ ss) = s ++ 32 ∷ joined (t ∷ ss)

-- `ircmsg.Message`, with the nickname that `Nick()` takes out of the source.
pub record IrcEvent : Type 0 where
  pub source : Text
  pub nick : Text
  pub params : List Text

-- `broker.Message`, without the platform, which is always "IRC", and the time.
pub record Message : Type 0 where
  pub message : Text
  pub nick : Text
  pub channel : Text

pub record IrcMessage : Type 0 where
  pub nick : Text
  pub user : Text
  pub channel : Text
  pub message : Text
  pub full_user : Text

abbrev pub trimmed : Option Text → Option Text
trimmed none = none
trimmed (some rest) = some (trim_space rest)

-- The command of a message that is addressed to the bot: 58 is the colon.
unfoldable pub command_of : Text → Text → Option Text
command_of own_nick message = trimmed (after_prefix message (own_nick ++ 58 ∷ []))

module _ {W : Type 0} (publish_event : Message → Exec W (Unit {0})) where
  -- A failure to publish is only logged.
  abbrev pub publish_command : IrcEvent → Text → Option Text → W → W
  publish_command e target none w = w
  publish_command e target (some command) w =
      (publish_event (record { message = command; nick = e.nick; channel = target }) w).1

  -- `none` is the panic on a message of fewer than two parameters.
  unfoldable pub on_command : Text → IrcEvent → W → Option W
  on_command own_nick e w = elim e.params [
    | [] ↦ none
    | target ∷ rest ↦ elim rest [
      | [] ↦ none
      | message ∷ more ↦ some (publish_command e target (command_of own_nick message) w)
    ]
  ]

-- What `Listen` hands on; it panics only where there is no parameter at all.
abbrev pub listened : IrcEvent → List Text → Option IrcMessage
listened e [] = none
listened e (channel ∷ rest) = some (record {
  nick = e.nick;
  user = cut_after 33 e.source;
  channel = channel;
  message = joined rest;
  full_user = e.source;
})

unfoldable pub irc_message : IrcEvent → Option IrcMessage
irc_message e = listened e e.params
