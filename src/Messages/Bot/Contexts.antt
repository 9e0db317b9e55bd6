-- ===== src/Messages/Bot/Contexts.antt =====
-- With which handlers the IRC bot publishes, and until when it may.
use threadr.Common.{ℕ, suc, true, false, some, List, ◌∷◌, ◌+◌, ◌≡◌, refl, sym, ap, subst, arith}
use threadr.Common.Exec.{Result, ok, err, bind-eq-ok, pure-eq-ok, lift-eq-ok, gets-eq-ok}
use threadr.Messages.Privmsg.{Text, IrcEvent}
use threadr.Messages.Adapter.{IrcAdapterConfig, IrcAdapter, adapter_with, new_irc_adapter}
use threadr.Messages.Adapter.Events.{CommandTurn, chat_of, on_privmsg_publishes}
use threadr.Messages.Nats.{NatsLibrary}
use threadr.Messages.Nats.Made.{IsMadeFor, new_handler-IsMadeFor}
use threadr.Messages.Bot.{
  BotCalls, Bot, set_up_bot, privmsg, publish_until, send_chat, send_command, on_bot_event,
}

adapter_read :
    (config : Result IrcAdapterConfig) (skip_verify : Text) (adapter : IrcAdapter)
    → new_irc_adapter config skip_verify ≡ ok adapter
    → (c : IrcAdapterConfig) × (config ≡ ok c) × (adapter ≡ adapter_with skip_verify c)
adapter_read (ok c) skip_verify adapter h = (c, refl, ground arith)
adapter_read (err e) skip_verify adapter h = absurd cc

module _ {W K N J P C M R : Type 0} (nats : NatsLibrary W K N J P C)
    (calls : BotCalls W M C R) where
  -- What `main` has made, from the world in which it started.
  pub record IsSetUp (started : W) (bot : Bot J C) : Type 0 where
    pub chat : IsMadeFor nats calls.nats_url "chat" "messages" false bot.cloud_events_handler
    pub commands : IsMadeFor nats calls.nats_url "incoming" "commands" false bot.commands_handler
    pub results : IsMadeFor nats calls.nats_url "outgoing" "results" true bot.results_handler
    pub deadline : bot.deadline ≡ calls.now started + 10
    pub adapter :
        (config : IrcAdapterConfig) × (calls.irc_config ≡ ok config)
        × (bot.irc_adapter ≡ adapter_with calls.skip_verify config)

  set_up_bot-IsSetUp :
      (bot : Bot J C) (w v : W) → set_up_bot nats calls w ≡ (ok bot, v) → IsSetUp w bot
  unfolding set_up_bot
  set_up_bot-IsSetUp bot w v h =
      let (started, _, at, h1) = bind-eq-ok _ _ h in
      let (chat, _, chat_made, h2) = bind-eq-ok _ _ h1 in
      let (commands, _, commands_made, h3) = bind-eq-ok _ _ h2 in
      let (results, _, results_made, h4) = bind-eq-ok _ _ h3 in
      let (adapter, _, adapter_made, h5) = bind-eq-ok _ _ h4 in
      let (_, _, _, h6) = bind-eq-ok _ _ h5 in
      let (_, _, _, h7) = bind-eq-ok _ _ h6 in
      subst (IsSetUp w) (pure-eq-ok h7).0 (record {
        chat = new_handler-IsMadeFor nats calls.nats_url _ _ _ _ _ _ chat_made;
        commands = new_handler-IsMadeFor nats calls.nats_url _ _ _ _ _ _ commands_made;
        results = new_handler-IsMadeFor nats calls.nats_url _ _ _ _ _ _ results_made;
        deadline = ap (λ n. n + 10) (sym (gets-eq-ok calls.now at).0);
        adapter = adapter_read _ _ _ (lift-eq-ok adapter_made).0;
      })

  module _ (e : IrcEvent) (target message : Text) (more : List Text)
      (params : e.params ≡ target ∷ message ∷ more) where
    -- The turn of an event, for an own nickname and a deadline of the commands: the command first, and
    -- then the chat message, under a deadline ten seconds after it is handled.
    abbrev pub Turn : Bot J C → Text → ℕ → ℕ → W → Type 0
    Turn bot own_nick deadline msg_counter w =
        (v : W) × CommandTurn (publish_until calls bot.commands_handler deadline "commands")
          (send_chat calls bot) own_nick message target e.nick w v
        × (on_bot_event calls bot (privmsg e) (msg_counter, w)
            ≡ some (
              suc msg_counter,
              (publish_until calls bot.cloud_events_handler (calls.now v + 10) "chat"
                  (chat_of (send_command calls bot) (send_chat calls bot) own_nick e target message
                    more params)
                  v).1,
            ))

    on_bot_event-Turn :
        (bot : Bot J C) (msg_counter : ℕ) (w : W)
        → Turn bot bot.irc_adapter.connection.nick bot.deadline msg_counter w
    unfolding on_bot_event send_chat send_command
    on_bot_event-Turn bot msg_counter w =
        on_privmsg_publishes (send_command calls bot) (send_chat calls bot)
          bot.irc_adapter.connection.nick e target message more params msg_counter w

    -- A bot that `main` has set up has its three handlers from the broker, each for its own subject
    -- and stream, and takes its nickname from the configuration. Of a message to a channel it
    -- publishes, first, the command that the message carries for this nickname, if it carries one,
    -- under the one deadline of all commands, ten seconds after the program has started, and then the
    -- whole message, under a deadline of its own, ten seconds after the command is done with.
    pub bot_publishes :
        (bot : Bot J C) (started v : W)
        → set_up_bot nats calls started ≡ (ok bot, v)
        → (msg_counter : ℕ) (w : W)
        → IsSetUp started bot
          × ((config : IrcAdapterConfig) × (calls.irc_config ≡ ok config)
              × Turn bot config.nick (calls.now started + 10) msg_counter w)
    bot_publishes bot started v h msg_counter w =
        let set_up = set_up_bot-IsSetUp bot started v h in
        let (config, read, made) = set_up.adapter in
        (
          set_up,
          (
            config,
            read,
            subst (λ d. Turn bot config.nick d msg_counter w) set_up.deadline
                (subst (λ (a : IrcAdapter). Turn bot a.connection.nick bot.deadline msg_counter w)
                  made (on_bot_event-Turn bot msg_counter w)),
          ),
        )
