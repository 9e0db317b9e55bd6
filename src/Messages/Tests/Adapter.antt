-- ===== src/Messages/Tests/Adapter.antt =====
-- An adapter for two channels.
use threadr.Common.{ℕ, true, some, List, [], ◌∷◌, ◌++◌, ◌≡◌, refl}
use threadr.Common.Exec.{Exec, ok, err, failed, ◌>>=◌}
use threadr.Messages.Privmsg.{
  Text, IrcEvent, Message, command_of, after_prefix, on_command, irc_message, trim_space, trim_left,
  trim_right,
}
use threadr.Messages.Adapter.{
  IrcAdapterConfig, adapter_with, split_on, join_channels, on_connect, on_chat_message,
}
use threadr.Messages.Adapter.Events.{on_privmsg}
use threadr.Messages.Adapter.Joins.{AreNames, AreTrimmed, join_each, on_connect_joins}

-- "#a, #b"
abbrev config : IrcAdapterConfig
config = record {
  nick = 98 ∷ [];
  server = 115 ∷ [];
  channels = 35 ∷ 97 ∷ 44 ∷ 32 ∷ 35 ∷ 98 ∷ [];
  bot_sasl_login = [];
  bot_sasl_password = [];
  insecure = true;
}

abbrev joins : Text → Exec (List Text) (Unit {0})
joins channel joined = (ok tt, joined ++ channel ∷ [])

joins_test : on_connect joins (adapter_with [] config) [] ≡ (35 ∷ 97 ∷ []) ∷ (35 ∷ 98 ∷ []) ∷ []
unfolding on_connect join_channels split_on trim_space trim_left trim_right ◌>>=◌
joins_test = refl

counts_test :
    on_chat_message {W = ℕ}
      (λ msg n. (err (failed "no"), n))
      (record { nick = []; user = []; channel = []; message = []; full_user = [] })
      (4, 7)
    ≡ (5, 7)
unfolding on_chat_message
counts_test = refl

on_connect_joins_example :
    (names : List Text) × (channels : List Text) × AreNames 44 config.channels names
    × AreTrimmed names channels
    × (on_connect joins (adapter_with [] config) [] ≡ (join_each joins channels []).1)
on_connect_joins_example = on_connect_joins joins [] config []

-- "hi" to the channel "#g", and "b:hi".
abbrev greeting : IrcEvent
greeting = record {
  source = 97 ∷ 33 ∷ 117 ∷ [];
  nick = 97 ∷ [];
  params = (35 ∷ 103 ∷ []) ∷ (98 ∷ 58 ∷ 104 ∷ 105 ∷ []) ∷ [];
}

abbrev notes : Message → Exec (List Text) (Unit {0})
notes m seen = (ok tt, seen ++ m.message ∷ [])

both_test :
    on_privmsg notes notes (98 ∷ []) greeting (0, [])
    ≡ some (1, (104 ∷ 105 ∷ []) ∷ (98 ∷ 58 ∷ 104 ∷ 105 ∷ []) ∷ [])
unfolding on_privmsg on_command command_of after_prefix irc_message on_chat_message trim_space
    trim_left trim_right
both_test = refl
