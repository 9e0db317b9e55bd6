-- ===== src/Messages/Tests/Discord.antt =====
-- A run of the user u1, in a world that lists what the bot does.
use threadr.Common.{ℕ, String, Bool, true, List, [], ◌∷◌, ◌++◌, ◌≡◌, refl}
use threadr.Common.Exec.{ok, err, not_found, ◌>>=◌}
use threadr.Messages.Handlers.{Sender, publish_event, handle_each, listen_rounds}
use threadr.Messages.Nats.{
  NatsConfig, NatsLibrary, NatsHandler, connect_handler, new_cloud_events_nats_handler, new_handler,
}
use threadr.Messages.Results.{CommandResult}
use threadr.Messages.Discord.{
  DiscordMessage, DiscordEvent, Session, on_discord_message, discord_send, on_discord_result,
}
use threadr.Messages.Discord.Run.{
  DiscordCalls, DiscordBot, DiscordBotEvent, created, fetched, publish_message, on_discord_event,
  on_discord_events, close_session, set_up_discord_bot, discord_main,
}
use threadr.Messages.Discord.Effects.{Effects}

abbrev said : String → String → DiscordMessage
said author content = record {
  content = content;
  author_id = author;
  author_name = "nick";
  channel_id = "c1";
  timestamp = 9;
}

abbrev session : Session
session = record { user_id = "u1"; intents = 3 }

abbrev result : CommandResult
result = record {
  message_id = 1;
  content = record { response = 104 ∷ []; channel = "c1"; timestamp = "t" };
}

result_test :
    on_discord_result {M = ℕ} (λ msg. ok result) (λ channel message sent. (ok tt, message)) 5 []
    ≡ 104 ∷ []
unfolding on_discord_result discord_send
result_test = refl

abbrev nats_config : NatsConfig
nats_config = record { nats_url = "n"; nkey = "k"; nkey_seed = "s"; durable_name = "d" }

abbrev library : NatsLibrary (List String) ℕ ℕ ℕ String ℕ
library = record {
  process = ok nats_config;
  from_seed = λ seed. ok 1;
  sign = λ key nonce. ok nonce;
  connect = λ url options w. (ok 5, w);
  jet_stream = λ nc w. (ok 6, w);
  new_protocol = λ url stream send receive options w. (ok stream, w);
  new_client = λ p w. (ok 7, w);
  pull_subscribe = λ js subject durable w. (ok tt, w ++ subject ∷ []);
}

abbrev sender : Sender (List String) DiscordEvent Bool
sender = record {
  new_id = λ w. (ok "id", w);
  now = λ w. 0;
  encode = λ event. ok event.message;
  send = λ event w. (true, w ++ event.content ∷ []);
  is_undelivered = λ undelivered. undelivered;
}

abbrev calls : DiscordCalls (List String) ℕ ℕ Bool
calls = record {
  nats_url = "n";
  token = "t";
  new_session = λ text. ok (record { user_id = text; intents = 3 });
  open_session = λ s w. (ok session, w ++ s.user_id ∷ []);
  close = λ s w. (err not_found, w ++ "closed" ∷ []);
  channel_message_send = λ channel message w. (ok tt, w ++ channel ∷ []);
  sender = λ client. sender;
  unmarshal = λ msg. ok result;
}

abbrev handler : NatsHandler ℕ ℕ
handler = record { client = 7; js = 6; config = nats_config }

abbrev bot : DiscordBot ℕ ℕ
bot = record { cloud_events_handler = handler; results_handler = handler; session = session }

abbrev events : List (DiscordBotEvent ℕ)
events =
    created (said "u1" "own")
    ∷ fetched (err not_found)
    ∷ created (said "u2" "hello")
    ∷ fetched (ok (5 ∷ []))
    ∷ []

-- The publication fails, and so does the closing.
main_test :
    discord_main library calls events []
    ≡ (ok tt, "Bot t" ∷ "outgoing" ∷ "hello" ∷ "c1" ∷ "closed" ∷ [])
unfolding discord_main set_up_discord_bot new_handler new_cloud_events_nats_handler connect_handler
    on_discord_events on_discord_event on_discord_message publish_message publish_event
    close_session handle_each listen_rounds on_discord_result discord_send ◌>>=◌
main_test = refl

-- The order in which the events have arrived: the first two were handled the other way round.
abbrev arrived : List (DiscordBotEvent ℕ)
arrived =
    fetched (err not_found)
    ∷ created (said "u1" "own")
    ∷ created (said "u2" "hello")
    ∷ fetched (ok (5 ∷ []))
    ∷ []
