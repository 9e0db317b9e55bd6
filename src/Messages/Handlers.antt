-- ===== src/Messages/Handlers.antt =====
-- The handlers of events: pkg/ports/composite_message_handler.go, mistral7b_analyzer.go, and the broker
-- of pkg/adapters/broker/nats_adapter.go. NATS, cloudevents, net/http and encoding/json are parameters.
pub mod Laws
use threadr.Common.{ℕ, String, Bool, true, false, List, [], ◌∷◌, ◌++◌, not, ◌==◌, if◌then◌else◌}
use threadr.Common.Exec.{
  Err, Result, ok, err, failed, Exec, pure, raise, lift, gets, attempt, wrap, ◌>>=◌, ◌>>◌,
}

-- `CompositeMessageHandler.Handle`: an error of a handler is dropped.
unfoldable pub handle_all : {W E : Type 0} → List (E → Exec W (Unit {0})) → E → Exec W (Unit {0})
handle_all [] event = pure tt
handle_all (handler ∷ handlers) event = attempt (handler event) >> handle_all handlers event

-- What the Mistral handler uses of an event, of the service, and of encoding/json: `post` is
-- `http.Post` of a payload to the service's URL.
pub record Mistral (W E : Type 0) : Type 0 where
  pub data_as : E → Result (String × String)
  pub marshal : String → String → Result String
  pub post : String → Exec W (ℕ × String)
  pub decode : String → Result (Unit {0})

module _ {W E : Type 0} (mistral : Mistral W E) where
  unfoldable pub check_generated : ℕ × String → Exec W (Unit {0})
  check_generated (status_code, body) =
      if not (status_code == 200)
      then raise (failed "mistral service returned non-OK status")
      else wrap "failed to decode response from Mistral service" (lift (mistral.decode body))

  -- `data_as` answers the nick and the message, and the nick is sent as the system prompt.
  unfoldable pub mistral_handle : E → Exec W (Unit {0})
  mistral_handle event = do
    parsed ← wrap "failed to parse message data" (lift (mistral.data_as event))
    payload ← wrap "failed to marshal request payload" (lift (mistral.marshal parsed.0 parsed.1))
    response ← wrap "failed to send request to Mistral service" (mistral.post payload)
    check_generated response

pub record Event : Type 0 where
  pub id : String
  pub type : String
  pub source : String
  pub time : ℕ
  pub content : String

abbrev pub chat_event : String → ℕ → String → Event
chat_event id time content = record {
  id = id;
  type = "com.carverauto.threadr.chatops";
  source = "threadr-bot";
  time = time;
  content = content;
}

-- `new_id` is `uuid.New`, `encode` the JSON encoding of `SetData`, `send` is `client.Send`, which
-- answers a protocol result, and `is_undelivered` is `cloudevents.IsUndelivered`.
pub record Sender (W D R : Type 0) : Type 0 where
  pub new_id : Exec W String
  pub now : W → ℕ
  pub encode : D → Result String
  pub send : Event → W → R × W
  pub is_undelivered : R → Bool

module _ {W D R : Type 0} (sender : Sender W D R) where
  abbrev pub delivered : R × W → Result (Unit {0}) × W
  delivered (result, w) =
      if sender.is_undelivered result then (err (failed "failed to send"), w) else (ok tt, w)

  -- The subject is an argument of the method too, which does not read it.
  unfoldable pub publish_event : String → D → Exec W (Unit {0})
  publish_event subject content = do
    id ← sender.new_id
    time ← gets sender.now
    encoded ← lift (sender.encode content)
    (λ w. delivered (sender.send (chat_event id time encoded) w))

-- The loop of `Listen`, over what the fetches answer: a fetch that fails, by a time-out or otherwise, is
-- tried again.
module _ {W M : Type 0} (handler : M → W → W) where
  unfoldable pub handle_each : List M → W → W
  handle_each [] w = w
  handle_each (msg ∷ msgs) w = handle_each msgs (handler msg w)

  unfoldable pub listen_rounds : List (Result (List M)) → W → W
  listen_rounds [] w = w
  listen_rounds (ok msgs ∷ fetches) w = listen_rounds fetches (handle_each msgs w)
  listen_rounds (err e ∷ fetches) w = listen_rounds fetches w
