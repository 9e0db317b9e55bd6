-- ===== src/Messages/Bot.antt =====
-- `main` of cmd/bots/IRC/main.go: the set-up, and the callbacks for what then happens. The environment,
-- NATS, cloudevents, encoding/json and the connection are parameters; times are in seconds.
pub mod Contexts
use threadr.Common.{ℕ, String, Bool, true, false, Option, none, some, List, [], ◌∷◌, ◌+◌}
use threadr.Common.Exec.{Result, Exec, pure, lift, gets, wrap, ◌>>=◌, ◌>>◌}
use threadr.Messages.Irc.{Bytes}
use threadr.Messages.Privmsg.{Text, IrcEvent, Message}
use threadr.Messages.Adapter.{
  IrcAdapterConfig, IrcConnection, IrcAdapter, new_irc_adapter, on_connect,
}
use threadr.Messages.Adapter.Events.{on_privmsg}
use threadr.Messages.Handlers.{Sender, publish_event, listen_rounds}
use threadr.Messages.Nats.{NatsLibrary, NatsHandler, new_handler}
use threadr.Messages.Results.{CommandResult, on_result}

-- `sender` is the client of a handler under a context with a deadline.
pub record BotCalls (W M C R : Type 0) : Type 0 where
  pub now : W → ℕ
  pub nats_url : String
  pub irc_config : Result IrcAdapterConfig
  pub skip_verify : Text
  pub connect : IrcConnection → Exec W (Unit {0})
  pub join : IrcConnection → Text → Exec W (Unit {0})
  pub privmsg : IrcConnection → String → Bytes → Exec W (Unit {0})
  pub sender : C → ℕ → Sender W Message R
  pub unmarshal : M → Result CommandResult
  pub ack : M → Exec W (Unit {0})

-- The variables of `main`; of its context only the deadline is used.
pub record Bot (J C : Type 0) : Type 0 where
  pub deadline : ℕ
  pub cloud_events_handler : NatsHandler J C
  pub commands_handler : NatsHandler J C
  pub results_handler : NatsHandler J C
  pub irc_adapter : IrcAdapter

module _ {W K N J P C M R : Type 0} (nats : NatsLibrary W K N J P C)
    (calls : BotCalls W M C R) where
  -- The goroutine for results subscribes as soon as it starts, which is taken to be at once.
  unfoldable pub set_up_bot : Exec W (Bot J C)
  set_up_bot = do
    started ← gets calls.now
    chat ← new_handler nats calls.nats_url "chat" "messages" false
    commands ← new_handler nats calls.nats_url "incoming" "commands" false
    results ← new_handler nats calls.nats_url "outgoing" "results" true
    adapter ← lift (new_irc_adapter calls.irc_config calls.skip_verify)
    wrap "Failed to connect to IRC:" (calls.connect adapter.connection)
    wrap "Failed to subscribe" (nats.pull_subscribe results.js "outgoing" "results-durable")
    pure (record {
      deadline = started + 10;
      cloud_events_handler = chat;
      commands_handler = commands;
      results_handler = results;
      irc_adapter = adapter;
    })

-- What happens to a running bot: the connection is registered, a message comes, or a fetch of results
-- answers.
pub data BotEvent (M : Type 0) : Type 0 where
  connected : BotEvent M
  privmsg : IrcEvent → BotEvent M
  fetched : Result (List M) → BotEvent M

abbrev pub and_then : {A : Type 0} → Option A → (A → Option A) → Option A
and_then none f = none
and_then (some a) f = f a

module _ {W J C M R : Type 0} (calls : BotCalls W M C R) where
  unfoldable pub publish_until : NatsHandler J C → ℕ → String → Message → Exec W (Unit {0})
  publish_until handler deadline subject m =
      publish_event (calls.sender handler.client deadline) subject m

  -- Every chat message has a context of its own.
  unfoldable pub send_chat : Bot J C → Message → Exec W (Unit {0})
  send_chat bot m w = publish_until bot.cloud_events_handler (calls.now w + 10) "chat" m w

  unfoldable pub send_command : Bot J C → Message → Exec W (Unit {0})
  send_command bot = publish_until bot.commands_handler bot.deadline "commands"

  -- `none` is a panic; the counter is that of the chat messages.
  unfoldable pub on_bot_event : Bot J C → BotEvent M → ℕ × W → Option (ℕ × W)
  on_bot_event bot connected (msg_counter, w) =
      some (msg_counter, on_connect (calls.join bot.irc_adapter.connection) bot.irc_adapter w)
  on_bot_event bot (privmsg e) (msg_counter, w) =
      on_privmsg (send_command bot) (send_chat bot) bot.irc_adapter.connection.nick e
        (msg_counter, w)
  on_bot_event bot (fetched msgs) (msg_counter, w) = some (
    msg_counter,
    listen_rounds (on_result calls.unmarshal calls.ack (calls.privmsg bot.irc_adapter.connection))
        (msgs ∷ []) w,
  )

  unfoldable pub on_bot_events : Bot J C → List (BotEvent M) → ℕ × W → Option (ℕ × W)
  on_bot_events bot [] state = some state
  on_bot_events bot (event ∷ events) state =
      and_then (on_bot_event bot event state) (on_bot_events bot events)
