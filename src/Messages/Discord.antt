-- ===== src/Messages/Discord.antt =====
-- pkg/adapters/messages/discord.go, and the callback for results of cmd/bots/discord/main.go. The
-- session of discordgo is a parameter.
pub mod Run
pub mod Effects
pub mod Main
use threadr.Common.{
  ℕ, String, List, [], ◌∷◌, ◌≡◌, ◌≢◌, true, false, refl, ap, ◌∙◌, str_eq, str_eq_iff, if◌then◌else◌,
  Bool-cases, inl, inr,
}
use threadr.Common.Exec.{Result, ok, err, Exec}
use threadr.Messages.Irc.{Bytes}
use threadr.Messages.Results.{CommandResult}
use Prim.Native.Nat.{bit_or}

-- `discordgo.MessageCreate`, as far as it is read.
pub record DiscordMessage : Type 0 where
  pub content : String
  pub author_id : String
  pub author_name : String
  pub channel_id : String
  pub timestamp : ℕ

-- `broker.Message`.
pub record DiscordEvent : Type 0 where
  pub message : String
  pub nick : String
  pub channel : String
  pub platform : String
  pub timestamp : ℕ

-- `discordgo.IntentMessageContent`, 1 << 15.
abbrev pub intent_message_content : ℕ
intent_message_content = 32768

-- The session's own user, and the intents that it asks for when it identifies itself.
pub record Session : Type 0 where
  pub user_id : String
  pub intents : ℕ

abbrev pub discord_event : DiscordMessage → DiscordEvent
discord_event m = record {
  message = m.content;
  nick = m.author_name;
  channel = m.channel_id;
  platform = "Discord";
  timestamp = m.timestamp;
}

abbrev pub with_content : Session → Session
with_content s = record s { intents = bit_or s.intents intent_message_content }

module _ {W : Type 0} (publish_event : DiscordEvent → Exec W (Unit {0})) where
  -- The handler of `Connect`; a failure to publish is only logged.
  unfoldable pub on_discord_message : DiscordMessage → Session × W → Session × W
  on_discord_message m (s, w) =
      if str_eq m.author_id s.user_id
      then (s, w)
      else (with_content s, (publish_event (discord_event m) w).1)

module _ {W M : Type 0} (unmarshal : M → Result CommandResult)
    (channel_message_send : String → Bytes → Exec W (Unit {0})) where
  -- `Send`; a failure is only logged.
  unfoldable pub discord_send : String → Bytes → W → W
  discord_send channel message w = (channel_message_send channel message w).1

  abbrev pub discord_decoded : Result CommandResult → W → W
  discord_decoded (ok result) w = discord_send result.content.channel result.content.response w
  discord_decoded (err e) w = w

  -- The callback for results, which acknowledges nothing.
  unfoldable pub on_discord_result : M → W → W
  on_discord_result msg w = discord_decoded (unmarshal msg) w
