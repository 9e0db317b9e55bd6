-- ===== src/Messages/Tests/Bot.antt =====
-- A bot that starts at the second 100; the world is the time, and the stream and the deadline of each
-- publication.
use threadr.Common.{
  ℕ, String, Bool, true, false, Option, none, some, List, [], ◌∷◌, ◌++◌, ◌≡◌, refl,
}
use threadr.Common.Exec.{Result, ok, err, not_found, ◌>>=◌}
use threadr.Messages.Irc.{send, try_send, send_chunks}
use threadr.Messages.Privmsg.{
  IrcEvent, Message, command_of, after_prefix, on_command, irc_message, trim_space, trim_left,
  trim_right,
}
use threadr.Messages.Adapter.{
  IrcAdapterConfig, adapter_with, split_on, join_channels, on_connect, on_chat_message,
}
use threadr.Messages.Adapter.Events.{on_privmsg}
use threadr.Messages.Handlers.{Sender, publish_event, listen_rounds, handle_each}
use threadr.Messages.Nats.{
  NatsConfig, NatsLibrary, NatsHandler, connect_handler, new_cloud_events_nats_handler, new_handler,
}
use threadr.Messages.Results.{CommandResult, on_result}
use threadr.Messages.Bot.{
  BotCalls, Bot, set_up_bot, connected, privmsg, fetched, publish_until, send_chat, send_command,
  on_bot_event, on_bot_events,
}
use threadr.Messages.Bot.Contexts.{IsSetUp, Turn, bot_publishes}

abbrev World : Type 0
World = ℕ × List (String × ℕ)

abbrev nats_config : NatsConfig
nats_config = record { nats_url = "n"; nkey = "k"; nkey_seed = "s"; durable_name = "d" }

abbrev made : Option String → Result String
made none = err not_found
made (some stream) = ok stream

-- The client of a stream is its name.
abbrev library : NatsLibrary World ℕ ℕ ℕ String String
library = record {
  process = ok nats_config;
  from_seed = λ seed. ok 1;
  sign = λ key nonce. ok nonce;
  connect = λ url options w. (ok 5, w);
  jet_stream = λ nc w. (ok 6, w);
  new_protocol = λ url stream send receive options w. (ok stream, w);
  new_client = λ p w. (made p, w);
  pull_subscribe = λ js subject durable w. (ok tt, w);
}

abbrev sender : String → ℕ → Sender World Message Bool
sender stream deadline = record {
  new_id = λ w. (ok "id", w);
  now = λ w. w.0;
  encode = λ m. ok "{}";
  send = λ event w. (false, (w.0, w.1 ++ (stream, deadline) ∷ []));
  is_undelivered = λ undelivered. undelivered;
}

abbrev irc_config : IrcAdapterConfig
irc_config = record {
  nick = 98 ∷ [];
  server = 115 ∷ [];
  channels = 35 ∷ 97 ∷ [];
  bot_sasl_login = [];
  bot_sasl_password = [];
  insecure = true;
}

abbrev result : CommandResult
result = record {
  message_id = 1;
  content = record { response = 104 ∷ []; channel = "c1"; timestamp = "t" };
}

abbrev calls : BotCalls World ℕ String Bool
calls = record {
  now = λ w. w.0;
  nats_url = "n";
  irc_config = ok irc_config;
  skip_verify = [];
  connect = λ connection w. (ok tt, w);
  join = λ connection channel w. (ok tt, (w.0, w.1 ++ ("join", 0) ∷ []));
  privmsg = λ connection channel message w. (ok tt, (w.0, w.1 ++ (channel, 0) ∷ []));
  sender = sender;
  unmarshal = λ msg. ok result;
  ack = λ msg w. (ok tt, w);
}

abbrev handler_for : String → NatsHandler ℕ String
handler_for stream = record { client = stream; js = 6; config = nats_config }

abbrev bot : Bot ℕ String
bot = record {
  deadline = 110;
  cloud_events_handler = handler_for "messages";
  commands_handler = handler_for "commands";
  results_handler = handler_for "results";
  irc_adapter = adapter_with [] irc_config;
}

set_up_test : set_up_bot library calls (100, []) ≡ (ok bot, (100, []))
unfolding set_up_bot new_handler new_cloud_events_nats_handler connect_handler ◌>>=◌
set_up_test = refl

-- "b:hi" from "a" to the channel "#g".
abbrev greeting : IrcEvent
greeting = record {
  source = 97 ∷ 33 ∷ 117 ∷ [];
  nick = 97 ∷ [];
  params = (35 ∷ 103 ∷ []) ∷ (98 ∷ 58 ∷ 104 ∷ 105 ∷ []) ∷ [];
}

events_test :
    on_bot_events calls bot
      (connected ∷ privmsg greeting ∷ fetched (err not_found) ∷ fetched (ok (5 ∷ [])) ∷ [])
      (0, (300, []))
    ≡ some (1, (300, ("join", 0) ∷ ("commands", 110) ∷ ("messages", 310) ∷ ("c1", 0) ∷ []))
unfolding on_bot_events on_bot_event publish_until send_chat send_command on_privmsg on_command
    command_of after_prefix irc_message on_chat_message trim_space trim_left trim_right
    publish_event listen_rounds handle_each on_result send try_send send_chunks on_connect
    join_channels split_on ◌>>=◌
events_test = refl

bot_publishes_example :
    IsSetUp library calls (100, []) bot
    × ((config : IrcAdapterConfig) × (calls.irc_config ≡ ok config)
        × Turn library calls greeting
            (35 ∷ 103 ∷ [])
            (98 ∷ 58 ∷ 104 ∷ 105 ∷ [])
            []
            refl
            bot
            config.nick
            110
            0
            (300, []))
bot_publishes_example =
    bot_publishes library calls greeting (35 ∷ 103 ∷ []) (98 ∷ 58 ∷ 104 ∷ 105 ∷ []) [] refl bot
      (100, []) (100, []) set_up_test 0 (300, [])
