-- ===== src/Messages/Adapter.antt =====
-- `NewIRCAdapter` of irc.go, the callback of `Connect` that joins the channels, and the callback of
-- cmd/bots/IRC/main.go that publishes chat messages. envconfig and the connection are parameters.
pub mod Joins
pub mod Events
use threadr.Common.{ℕ, suc, Bool, true, Option, none, some, List, [], ◌∷◌, ◌==◌, if◌then◌else◌, map}
unfoldable pub use threadr.Common.Texts.{cons_to_first, split_on}
use threadr.Common.Exec.{Result, ok, err, Exec, pure, ◌>>=◌, ◌>>◌}
use threadr.Messages.Privmsg.{Text, trim_space, Message, IrcMessage}

pub record IrcAdapterConfig : Type 0 where
  pub nick : Text
  pub server : Text
  pub channels : Text
  pub bot_sasl_login : Text
  pub bot_sasl_password : Text
  pub insecure : Bool

-- `ircevent.Connection`; the TLS configuration is nil, or says whether to skip verification.
pub record IrcConnection : Type 0 where
  pub server : Text
  pub nick : Text
  pub use_tls : Bool
  pub insecure_skip_verify : Option Bool
  pub sasl_login : Text
  pub sasl_password : Text

pub record IrcAdapter : Type 0 where
  pub connection : IrcConnection
  pub channels : List Text

-- The configuration says whether to skip verification too, but the variable alone decides: any text
-- skips it.
abbrev pub tls_config : Text → Option Bool
tls_config [] = none
tls_config (r ∷ rs) = some true

abbrev pub adapter_with : Text → IrcAdapterConfig → IrcAdapter
adapter_with skip_verify config = record {
  connection = record {
    server = config.server;
    nick = config.nick;
    use_tls = true;
    insecure_skip_verify = tls_config skip_verify;
    sasl_login = config.bot_sasl_login;
    sasl_password = config.bot_sasl_password;
  };
  channels = split_on 44 config.channels;
}

-- The error of envconfig is `log.Fatal`; the text is the variable BOT_INSECURE_SKIP_VERIFY.
abbrev pub new_irc_adapter : Result IrcAdapterConfig → Text → Result IrcAdapter
new_irc_adapter (ok config) skip_verify = ok (adapter_with skip_verify config)
new_irc_adapter (err e) skip_verify = err e

module _ {W : Type 0} (join : Text → Exec W (Unit {0})) where
  -- The loop returns at the first channel that fails.
  unfoldable pub join_channels : List Text → Exec W (Unit {0})
  join_channels [] = pure tt
  join_channels (channel ∷ channels) =
      let rest = join_channels channels in join (trim_space channel) >> rest

  -- The callback for a connection; a failure is only logged.
  unfoldable pub on_connect : IrcAdapter → W → W
  on_connect irc w = (join_channels irc.channels w).1

module _ {W : Type 0} (publish_event : Message → Exec W (Unit {0})) where
  -- The callback for chat messages, with its counter; a failure to publish is only logged.
  unfoldable pub on_chat_message : IrcMessage → ℕ × W → ℕ × W
  on_chat_message irc_msg (msg_counter, w) = (
    suc msg_counter,
    (publish_event
        (record { message = irc_msg.message; nick = irc_msg.nick; channel = irc_msg.channel }) w).1,
  )
