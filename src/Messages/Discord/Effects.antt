-- ===== src/Messages/Discord/Effects.antt =====
-- What the events of the Discord bot are to make it do, and the replies to a fetch of results.
use threadr.Common.{
  String, List, [], ◌∷◌, ◌++◌, ◌≡◌, ◌≢◌, refl, ap, ◌∙◌, inl, inr, subst, append_assoc,
}
use mathlib.Core.List.{Perm, perm_append_comm}
use mathlib.Core.List.Perm
use threadr.Common.Exec.{Err, Result, Result-cases, ok, err}
use threadr.Messages.Irc.{Bytes}
use threadr.Messages.Handlers.{handle_each}
use threadr.Messages.Results.{CommandResult}
use threadr.Messages.Discord.{
  DiscordMessage, DiscordEvent, discord_event, discord_send, discord_decoded, on_discord_result,
}
use threadr.Messages.Discord.Run.{
  DiscordCalls, DiscordBot, DiscordBotEvent, created, fetched, publish_message,
}

pub data Effect : Type 0 where
  publish : DiscordEvent → Effect
  reply : String → Bytes → Effect

-- What a fetch of results makes the bot reply.
pub data Replies {M : Type 0} (unmarshal : M → Result CommandResult)
    : List M → List Effect → Type 0 where
  nothing : Replies unmarshal [] []
  unread :
      {msg : M} {msgs : List M} {effects : List Effect} (e : Err)
      → unmarshal msg ≡ err e
      → Replies unmarshal msgs effects
      → Replies unmarshal (msg ∷ msgs) effects
  read :
      {msg : M} {msgs : List M} {effects : List Effect} (result : CommandResult)
      → unmarshal msg ≡ ok result
      → Replies unmarshal msgs effects
      → Replies unmarshal
          (msg ∷ msgs)
          (reply result.content.channel result.content.response ∷ effects)

-- What an event asks of a bot of this user: to publish the message of another, to reply the results
-- that can be read, and nothing for a message of its own or a fetch that fails.
pub data Asks {M : Type 0} (unmarshal : M → Result CommandResult) (own_id : String)
    : DiscordBotEvent M → List Effect → Type 0 where
  own : {m : DiscordMessage} → m.author_id ≡ own_id → Asks unmarshal own_id (created m) []
  other :
      {m : DiscordMessage}
      → m.author_id ≢ own_id
      → Asks unmarshal own_id (created m) (publish (discord_event m) ∷ [])
  refused : {e : Err} → Asks unmarshal own_id (fetched (err e)) []
  answered :
      {msgs : List M} {replies : List Effect}
      → Replies unmarshal msgs replies
      → Asks unmarshal own_id (fetched (ok msgs)) replies

-- The same events in another order, made by swaps of neighbours.
pub data Reorders {M : Type 0} : List (DiscordBotEvent M) → List (DiscordBotEvent M) → Type 0 where
  empty : Reorders [] []
  keep :
      {event : DiscordBotEvent M} {xs ys : List (DiscordBotEvent M)}
      → Reorders xs ys
      → Reorders (event ∷ xs) (event ∷ ys)
  swap :
      {first second : DiscordBotEvent M} {events : List (DiscordBotEvent M)}
      → Reorders (first ∷ second ∷ events) (second ∷ first ∷ events)
  compose : {xs ys zs : List (DiscordBotEvent M)} → Reorders xs ys → Reorders ys zs → Reorders xs zs

-- What events ask for, one after another.
pub data Effects {M : Type 0} (unmarshal : M → Result CommandResult) (own_id : String)
    : List (DiscordBotEvent M) → List Effect → Type 0 where
  done : Effects unmarshal own_id [] []
  after :
      {event : DiscordBotEvent M} {events : List (DiscordBotEvent M)} {asked effects : List Effect}
      → Asks unmarshal own_id event asked
      → Effects unmarshal own_id events effects
      → Effects unmarshal own_id (event ∷ events) (asked ++ effects)

swap_blocks : (xs ys zs : List Effect) → Perm (xs ++ (ys ++ zs)) (ys ++ (xs ++ zs))
swap_blocks xs ys zs =
    subst (λ l. Perm l (ys ++ (xs ++ zs))) (append_assoc xs ys zs)
      (subst (λ l. Perm (xs ++ ys ++ zs) l) (append_assoc ys xs zs)
        (Perm.append_right zs (perm_append_comm xs ys)))

module _ {M : Type 0} (unmarshal : M → Result CommandResult) (own_id : String) where
  -- In another order the events ask for the same, in another order.
  pub reordered :
      {xs ys : List (DiscordBotEvent M)} {effects : List Effect}
      → Reorders xs ys
      → Effects unmarshal own_id xs effects
      → (due : List Effect) × Effects unmarshal own_id ys due × Perm effects due
  reordered empty done = ([], done, Perm.refl [])
  reordered (keep p) (after {asked = asked} ask rest) =
      let (due, from, same) = reordered p rest in
      (asked ++ due, after ask from, Perm.append_left asked same)
  reordered swap
        (after {asked = first} ask (after {asked = second} {effects = effects} ask_next rest)) =
      (
        second ++ (first ++ effects),
        after ask_next (after ask rest),
        swap_blocks first second effects,
      )
  reordered (compose p q) from =
      let (middle, from_middle, same) = reordered p from in
      let (due, from_due, same_due) = reordered q from_middle in
      (due, from_due, Perm.trans same same_due)

module _ {W J C M R : Type 0} (calls : DiscordCalls W M C R) (bot : DiscordBot J C) where
  abbrev pub perform : Effect → W → W
  perform (publish event) w = (publish_message calls bot event w).1
  perform (reply channel message) w = (calls.channel_message_send channel message w).1

  unfoldable pub perform_all : List Effect → W → W
  perform_all [] w = w
  perform_all (effect ∷ effects) w = perform_all effects (perform effect w)

  pub perform_all-append :
      (xs ys : List Effect) (w : W) → perform_all (xs ++ ys) w ≡ perform_all ys (perform_all xs w)
  unfolding perform_all
  perform_all-append [] ys w = refl
  perform_all-append (x ∷ xs) ys w = perform_all-append xs ys (perform x w)

  one_result :
      (msg : M) (msgs : List M) (w : W) {r : Result CommandResult}
      → calls.unmarshal msg ≡ r
      → handle_each (on_discord_result calls.unmarshal calls.channel_message_send) (msg ∷ msgs) w
        ≡ handle_each
            (on_discord_result calls.unmarshal calls.channel_message_send)
            msgs
            (discord_decoded calls.unmarshal calls.channel_message_send r w)
  unfolding handle_each on_discord_result
  one_result msg msgs w h =
      ap
        (λ r.
          handle_each (on_discord_result calls.unmarshal calls.channel_message_send) msgs
            (discord_decoded calls.unmarshal calls.channel_message_send r w))
        h

  pub replied :
      (msgs : List M) (w : W)
      → (replies : List Effect) × Replies calls.unmarshal msgs replies
        × (handle_each (on_discord_result calls.unmarshal calls.channel_message_send) msgs w
            ≡ perform_all replies w)
  unfolding handle_each perform_all discord_send
  replied [] w = ([], nothing, refl)
  replied (msg ∷ msgs) w = elim (Result-cases (calls.unmarshal msg)) [
    | inl (result, given) ↦
        let effect = reply result.content.channel result.content.response in
        let (replies, from, same) = replied msgs (perform effect w) in
        (effect ∷ replies, read result given from, one_result msg msgs w given ∙ same)
    | inr (e, failed) ↦
        let (replies, from, same) = replied msgs w in
        (replies, unread e failed from, one_result msg msgs w failed ∙ same)
  ]
