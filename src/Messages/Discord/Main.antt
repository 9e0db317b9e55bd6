-- ===== src/Messages/Discord/Main.antt =====
-- What a run of the Discord bot does, event by event.
use threadr.Common.{List, ◌≡◌}
use threadr.Messages.Discord.{Session}
use threadr.Messages.Discord.Run.{DiscordCalls, DiscordBot, DiscordBotEvent, on_discord_events}
use threadr.Messages.Discord.Effects.{Effect, Effects, perform_all}

module _ {W J C M R : Type 0} (calls : DiscordCalls W M C R) (bot : DiscordBot J C) where
  -- A run of events: its effects, and a session of the same user.
  abbrev pub Ran : List (DiscordBotEvent M) → Session → W → Type 0
  Ran events s w =
      (effects : List Effect) × (last : Session) × Effects calls.unmarshal s.user_id events effects
      × (last.user_id ≡ s.user_id)
      × (on_discord_events calls bot events (s, w) ≡ (last, perform_all calls bot effects w))
