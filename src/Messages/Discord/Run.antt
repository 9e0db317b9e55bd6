-- ===== src/Messages/Discord/Run.antt =====
-- `main` of cmd/bots/discord/main.go, with `NewDiscordAdapter` and the opening of the session in
-- discord.go. A run is given by what happens until the interrupt. discordgo starts each handler in a
-- goroutine of its own, and the results are fetched in another: the events of a run stand in the order
-- in which they happen to be handled, one at a time, and not in that in which they have arrived.
use threadr.Common.{String, true, false, List, [], ◌∷◌}
use threadr.Common.Exec.{Result, ok, Exec, pure, lift, wrap, ◌>>=◌, ◌>>◌}
use threadr.Messages.Irc.{Bytes}
use threadr.Messages.Handlers.{Sender, publish_event, listen_rounds}
use threadr.Messages.Nats.{NatsLibrary, NatsHandler, new_handler}
use threadr.Messages.Results.{CommandResult}
use threadr.Messages.Discord.{
  DiscordMessage, DiscordEvent, Session, on_discord_message, on_discord_result,
}
use Prim.Native.String.{◌++◌ as str_append}

-- `new_session` is given the text of the authorisation, and `open_session` answers the session with its own user.
pub record DiscordCalls (W M C R : Type 0) : Type 0 where
  pub nats_url : String
  pub token : String
  pub new_session : String → Result Session
  pub open_session : Session → Exec W Session
  pub close : Session → Exec W (Unit {0})
  pub channel_message_send : String → Bytes → Exec W (Unit {0})
  pub sender : C → Sender W DiscordEvent R
  pub unmarshal : M → Result CommandResult

pub record DiscordBot (J C : Type 0) : Type 0 where
  pub cloud_events_handler : NatsHandler J C
  pub results_handler : NatsHandler J C
  pub session : Session

pub data DiscordBotEvent (M : Type 0) : Type 0 where
  created : DiscordMessage → DiscordBotEvent M
  fetched : Result (List M) → DiscordBotEvent M

module _ {W M C R : Type 0} (calls : DiscordCalls W M C R) where
  abbrev pub new_discord_adapter : Exec W Session
  new_discord_adapter =
      wrap "error creating Discord session"
        (lift (calls.new_session (str_append "Bot " calls.token)))

  -- A failure to close the session is only logged.
  unfoldable pub close_session : Session × W → W
  close_session (s, w) = (calls.close s w).1

module _ {W J C M R : Type 0} (calls : DiscordCalls W M C R) where
  unfoldable pub publish_message : DiscordBot J C → DiscordEvent → Exec W (Unit {0})
  publish_message bot event =
      publish_event (calls.sender bot.cloud_events_handler.client) "discord" event

  unfoldable pub on_discord_event : DiscordBot J C → DiscordBotEvent M → Session × W → Session × W
  on_discord_event bot (created m) sw = on_discord_message (publish_message bot) m sw
  on_discord_event bot (fetched msgs) (s, w) = (
    s,
    listen_rounds (on_discord_result calls.unmarshal calls.channel_message_send) (msgs ∷ []) w,
  )

  -- The events in the order in which they are handled.
  unfoldable pub on_discord_events :
      DiscordBot J C → List (DiscordBotEvent M) → Session × W → Session × W
  on_discord_events bot [] sw = sw
  on_discord_events bot (event ∷ events) sw =
      on_discord_events bot events (on_discord_event bot event sw)

module _ {W K N J P C M R : Type 0} (nats : NatsLibrary W K N J P C)
    (calls : DiscordCalls W M C R) where
  -- Each error ends the program. The goroutine for results subscribes as soon as it starts, which is
  -- taken to be at once.
  unfoldable pub set_up_discord_bot : Exec W (DiscordBot J C)
  set_up_discord_bot = do
    chat ← new_handler nats calls.nats_url "chat" "messages" false
    results ← new_handler nats calls.nats_url "outgoing" "results" true
    new ←
        wrap "error creating Discord session"
          (lift (calls.new_session (str_append "Bot " calls.token)))
    session ← wrap "Failed to connect to Discord" (calls.open_session new)
    wrap "Failed to subscribe" (nats.pull_subscribe results.js "outgoing" "results-durable")
    pure (record { cloud_events_handler = chat; results_handler = results; session = session })

  unfoldable pub discord_main : List (DiscordBotEvent M) → Exec W (Unit {0})
  discord_main events = do
    bot ← set_up_discord_bot
    (λ w. (ok tt, close_session calls (on_discord_events calls bot events (bot.session, w))))
