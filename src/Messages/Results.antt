-- ===== src/Messages/Results.antt =====
-- The subscription to results of cmd/bots/IRC/main.go: a result is acknowledged, and then sent to its
-- channel. Decoding, the acknowledgement and the connection are parameters.
use threadr.Common.{ℕ, String}
use threadr.Common.Exec.{Result, ok, err, Exec}
use threadr.Messages.Irc.{Bytes, send}

pub record ResultContent : Type 0 where
  pub response : Bytes
  pub channel : String
  pub timestamp : String

pub record CommandResult : Type 0 where
  pub message_id : ℕ
  pub content : ResultContent

module _ {W M : Type 0} (unmarshal : M → Result CommandResult) (ack : M → Exec W (Unit {0}))
    (privmsg : String → Bytes → Exec W (Unit {0})) where
  abbrev pub acknowledged : CommandResult → Result (Unit {0}) → W → W
  acknowledged result (err e) w = w
  acknowledged result (ok done) w = send privmsg result.content.channel result.content.response w

  abbrev pub decoded : M → Result CommandResult → W → W
  decoded msg (err e) w = w
  decoded msg (ok result) w = let (outcome, v) = ack msg w in acknowledged result outcome v

  unfoldable pub on_result : M → W → W
  on_result msg w = decoded msg (unmarshal msg) w
