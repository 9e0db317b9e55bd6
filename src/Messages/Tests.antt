-- ===== src/Messages/Tests.antt =====
-- Messages to a channel that records what it is sent.
mod Handlers
mod Batch
mod Bot
mod Nats
mod Discord
mod Adapter
use threadr.Common.{
  ℕ, zero, suc, String, List, [], ◌∷◌, ◌++◌, map, length, ◌≡◌, ◌≢◌, ◌↔◌, refl, some,
}
use threadr.Common.Exec.{ok, Exec, ◌>>=◌}
use threadr.Messages.Irc.{Bytes, send, send_chunks, try_send, chunk_end, next_start, last_index}
use threadr.Messages.Irc.Split.{Splits, deliver}
use threadr.Messages.Irc.Sent.{send_refines}
use threadr.Messages.Privmsg.{
  Text, IrcEvent, IrcMessage, Message, command_of, after_prefix, trim_space, trim_left, trim_right,
  on_command, irc_message, cut_after,
}
use threadr.Messages.Privmsg.Laws.{Carries, IsCut, command_of_iff}

abbrev repeated : ℕ → ℕ → Bytes
repeated zero b = []
repeated (suc n) b = b ∷ repeated n b

abbrev record_sent : String → Bytes → Exec (List Bytes) (Unit {0})
record_sent channel message sent = (ok tt, sent ++ message ∷ [])

last_index_test : last_index (97 ∷ 32 ∷ 98 ∷ 32 ∷ 99 ∷ []) ≡ some 3
unfolding last_index
last_index_test = refl

-- 300 letters, a space and 200 letters: two parts, without the space.
abbrev long_message : Bytes
long_message = repeated 300 97 ++ 32 ∷ repeated 200 98

two_parts_test : map length (send record_sent "#go" long_message []) ≡ 300 ∷ 200 ∷ []
unfolding send try_send send_chunks chunk_end next_start last_index ◌>>=◌
two_parts_test = refl

-- A word of 450 letters is cut.
cut_test : map length (send record_sent "#go" (repeated 450 97) []) ≡ 400 ∷ 50 ∷ []
unfolding send try_send send_chunks chunk_end next_start last_index ◌>>=◌
cut_test = refl

send_refines_example :
    (cs : List Bytes) × Splits long_message cs
    × ((w : List Bytes)
        → send record_sent "#go" long_message w ≡ (deliver record_sent "#go" cs w).1)
send_refines_example = send_refines record_sent "#go" long_message

-- "bot" and "bot:  hi ".
abbrev own_nick : Text
own_nick = 98 ∷ 111 ∷ 116 ∷ []

abbrev greeting : Text
greeting = 98 ∷ 111 ∷ 116 ∷ 58 ∷ 32 ∷ 32 ∷ 104 ∷ 105 ∷ 32 ∷ []

command_test : command_of own_nick greeting ≡ some (104 ∷ 105 ∷ [])
unfolding command_of after_prefix trim_space trim_left trim_right
command_test = refl

command_of_iff_example :
    (command_of own_nick greeting ≡ some (104 ∷ 105 ∷ []))
    ↔ Carries own_nick greeting (104 ∷ 105 ∷ [])
command_of_iff_example = command_of_iff own_nick greeting (104 ∷ 105 ∷ [])

-- "a!u", and a message "hi" that is for nobody.
abbrev event : IrcEvent
event = record {
  source = 97 ∷ 33 ∷ 117 ∷ [];
  nick = 97 ∷ [];
  params = (35 ∷ 103 ∷ []) ∷ (104 ∷ 105 ∷ []) ∷ [];
}

abbrev count : Message → Exec ℕ (Unit {0})
count m n = (ok tt, suc n)

silent_test : on_command count own_nick event 0 ≡ some 0
unfolding on_command command_of after_prefix
silent_test = refl

abbrev heard : IrcMessage
heard = record {
  nick = 97 ∷ [];
  user = 117 ∷ [];
  channel = 35 ∷ 103 ∷ [];
  message = 104 ∷ 105 ∷ [];
  full_user = 97 ∷ 33 ∷ 117 ∷ [];
}

heard_test : irc_message event ≡ some heard
unfolding irc_message cut_after
heard_test = refl
