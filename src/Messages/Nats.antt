-- ===== src/Messages/Nats.antt =====
-- pkg/adapters/broker/nats_adapter.go: the set-up of the handler and its subscription, and
-- pkg/adapters/cloudevents/handlers.go. envconfig, nkeys, NATS and cloudevents are a record of calls.
-- An error keeps its cause, also where the code only prints it.
pub mod SetUp
pub mod Made
use threadr.Common.{ℕ, String, Bool, true, Option, none, some, List}
use threadr.Common.Exec.{Result, ok, err, Exec, pure, lift, attempt, wrap, wrap_err, ◌>>=◌, ◌>>◌}
use threadr.Messages.Handlers.{listen_rounds}

pub record NatsConfig : Type 0 where
  pub nats_url : String
  pub nkey : String
  pub nkey_seed : String
  pub durable_name : String

-- The options of a connection; durations are in seconds, and `sign` is called with a nonce.
pub record NatsOptions : Type 0 where
  pub retry_on_failed_connect : Bool
  pub timeout : ℕ
  pub reconnect_wait : ℕ
  pub nkey : String
  pub sign : String → Result String

-- `new_client` may be handed a nil protocol.
pub record NatsLibrary (W K N J P C : Type 0) : Type 0 where
  pub process : Result NatsConfig
  pub from_seed : String → Result K
  pub sign : K → String → Result String
  pub connect : String → NatsOptions → Exec W N
  pub jet_stream : N → Exec W J
  pub new_protocol : String → String → String → String → NatsOptions → Exec W P
  pub new_client : Option P → Exec W C
  pub pull_subscribe : J → String → String → Exec W (Unit {0})

-- `CloudEventsNATSHandler`, whose field `nc` is set nowhere.
pub record NatsHandler (J C : Type 0) : Type 0 where
  pub client : C
  pub js : J
  pub config : NatsConfig

abbrev pub or_nil : {P : Type 0} → Result P → Option P
or_nil (ok p) = some p
or_nil (err e) = none

module _ {W K N J P C : Type 0} (nats : NatsLibrary W K N J P C) where
  abbrev pub signed : String → Result K → Result String
  signed nonce (ok key) = nats.sign key nonce
  signed nonce (err e) = err e

  abbrev pub nats_opts : NatsConfig → NatsOptions
  nats_opts env = record {
    retry_on_failed_connect = true;
    timeout = 30;
    reconnect_wait = 1;
    nkey = env.nkey;
    sign = λ nonce. signed nonce (nats.from_seed env.nkey_seed);
  }

  -- The error of `NewProtocol` is overwritten by that of `NewClient` before it is looked at.
  unfoldable pub connect_handler : NatsConfig → String → String → String → Exec W (NatsHandler J C)
  connect_handler env nats_url subject stream = do
    nc ← wrap "failed to connect to NATS" (nats.connect env.nats_url (nats_opts env))
    js ← wrap "failed to create JetStream context" (nats.jet_stream nc)
    p ← attempt (nats.new_protocol nats_url stream subject subject (nats_opts env))
    client ← wrap "failed to create CloudEvents client" (nats.new_client (or_nil p))
    pure (record { client = client; js = js; config = env })

  -- The outer error is `log.Fatal`; whether the handler consumes is not looked at.
  unfoldable pub new_cloud_events_nats_handler :
      String → String → String → Bool → Exec W (Result (NatsHandler J C))
  new_cloud_events_nats_handler nats_url subject stream is_consumer = do
    env ← wrap "Failed to process NATS config" (lift nats.process)
    attempt (connect_handler env nats_url subject stream)

  unfoldable pub create_cloud_events_handler :
      String → String → String → Bool → Exec W (Result (NatsHandler J C))
  create_cloud_events_handler nats_url subject stream subscribe = do
    handler ← new_cloud_events_nats_handler nats_url subject stream subscribe
    pure (wrap_err "failed to create CloudEvents handler" handler)

  -- `Listen`, over what the fetches answer; the error is `log.Fatalf`.
  unfoldable pub listen :
      {M : Type 0}
      → NatsHandler J C
      → String
      → String
      → (M → W → W)
      → List (Result (List M))
      → Exec W (Unit {0})
  listen h subject durable_name handler_func fetches =
      wrap "Failed to subscribe" (nats.pull_subscribe h.js subject durable_name)
      >> (λ w. (ok tt, listen_rounds handler_func fetches w))

  -- How the bots' `main` makes a handler: its error is `log.Fatalf`.
  unfoldable pub new_handler : String → String → String → Bool → Exec W (NatsHandler J C)
  new_handler nats_url subject stream is_consumer =
      new_cloud_events_nats_handler nats_url subject stream is_consumer >>= λ handler.
      wrap "Failed to create CloudEvents handler" (lift handler)
