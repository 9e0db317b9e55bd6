-- ===== src/Messages/Irc.antt =====
-- `IRCAdapter.Send` of irc.go: a long message goes out in parts of at most 400 bytes. Messages are the
-- bytes of Go's strings, and `privmsg` is `ircevent.Connection.Privmsg`.
pub mod Split
pub mod Turns
pub mod Sent
use threadr.Common.{
  ℕ, zero, suc, ◌+◌, ◌-◌, String, Bool, true, false, Option, none, some, List, [], ◌∷◌, length, ltb,
  ◌==◌, if◌then◌else◌,
}
use threadr.Common.Slices.{take, drop, get_elem?}
use threadr.Common.Exec.{Result, Exec, pure, ◌>>=◌, ◌>>◌}

abbrev pub Bytes : Type 0
Bytes = List ℕ

abbrev pub space : ℕ
space = 32

abbrev pub max_message_length : ℕ
max_message_length = 400

-- `message[start:end]`.
abbrev pub slice : Bytes → ℕ → ℕ → Bytes
slice message start end = take (end - start) (drop start message)

-- `strings.LastIndex(s, " ")`, `none` for -1: a space further on wins over one at the front.
abbrev pub later_or : Option ℕ → ℕ → Option ℕ
later_or (some i) b = some (suc i)
later_or none b = if b == space then some 0 else none

unfoldable pub last_index : Bytes → Option ℕ
last_index [] = none
last_index (b ∷ bs) = later_or (last_index bs) b

abbrev pub space_or : Option ℕ → ℕ → ℕ → ℕ
space_or none start end = end
space_or (some space_index) start end = start + space_index

-- Where the chunk from `start` ends.
unfoldable pub chunk_end : Bytes → ℕ → ℕ
unfolding last_index
chunk_end message start =
    let end = start + max_message_length in
    if ltb (length message) end
    then length message
    else space_or (last_index (slice message start end)) start end

-- `end < len(message) && message[end] == ' '`; an index out of range is no space.
abbrev pub is_space : Option ℕ → Bool
is_space none = false
is_space (some b) = b == space

abbrev pub is_space_at : Bytes → ℕ → Bool
is_space_at message end = is_space (get_elem? message end)

unfoldable pub next_start : Bytes → ℕ → ℕ
next_start message end = if is_space_at message end then end + 1 else end

module _ {W : Type 0} (privmsg : String → Bytes → Exec W (Unit {0})) where
  -- The loop over the chunks; a chunk that fails ends it.
  unfoldable pub send_chunks : ℕ → String → Bytes → ℕ → Exec W (Unit {0})
  send_chunks zero channel message start = pure tt
  send_chunks (suc fuel) channel message start =
      if ltb start (length message)
      then (privmsg channel (slice message start (chunk_end message start))
          >> send_chunks fuel channel message (next_start message (chunk_end message start)))
      else pure tt

  -- Each turn takes a byte at least, so that one turn more than there are bytes is enough.
  unfoldable pub try_send : String → Bytes → Exec W (Unit {0})
  try_send channel message =
      if ltb max_message_length (length message)
      then send_chunks (suc (length message)) channel message 0
      else privmsg channel message

  -- `Send` returns nothing: an error is only logged.
  unfoldable pub send : String → Bytes → W → W
  send channel message w = (try_send channel message w).1
