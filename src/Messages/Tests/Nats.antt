-- ===== src/Messages/Tests/Nats.antt =====
-- A set-up in which the protocol fails and the client takes what is left.
use threadr.Common.{ℕ, false, Option, [], ◌∷◌, ◌≡◌, ◌↔◌, refl}
use threadr.Common.Exec.{Result, ok, err, not_found, ◌>>=◌}
use threadr.Messages.Handlers.{handle_each, listen_rounds}
use threadr.Messages.Nats.{
  NatsConfig, NatsLibrary, NatsHandler, connect_handler, new_cloud_events_nats_handler,
  create_cloud_events_handler, listen,
}
use threadr.Messages.Nats.SetUp.{create_handler_iff}

abbrev config : NatsConfig
config = record {
  nats_url = "nats://nats:4222";
  nkey = "U1";
  nkey_seed = "SU1";
  durable_name = "durable-results";
}

-- Connections, streams and clients are numbers, and the world is the number of calls.
abbrev library : NatsLibrary ℕ ℕ ℕ ℕ ℕ (Option ℕ)
library = record {
  process = ok config;
  from_seed = λ seed. ok 1;
  sign = λ key nonce. ok nonce;
  connect = λ url options n. (ok 5, 1);
  jet_stream = λ nc n. (ok 6, 2);
  new_protocol = λ url stream send receive options n. (err not_found, 3);
  new_client = λ p n. (ok p, 4);
  pull_subscribe = λ js subject durable n. (ok tt, n);
}

abbrev handler : NatsHandler ℕ (Option ℕ)
handler = record { client = Option.none; js = 6; config = config }

abbrev accepted : Result (Option ℕ)
accepted = ok Option.none

set_up_test :
    create_cloud_events_handler library "nats://nats:4222" "chat" "messages" false 0
    ≡ (ok (ok handler), 4)
unfolding create_cloud_events_handler new_cloud_events_nats_handler connect_handler ◌>>=◌
set_up_test = refl

create_handler_iff_example :
    (create_cloud_events_handler library "nats://nats:4222" "chat" "messages" false 0
      ≡ (ok (ok handler), 4))
    ↔ ((accepted ≡ ok handler.client) × (handler.js ≡ 6) × (config ≡ handler.config))
create_handler_iff_example =
    create_handler_iff library config "nats://nats:4222" "chat" "messages" false 5 6 (err not_found)
      accepted 0 1 2 3 4 handler refl refl refl refl refl

listen_test :
    listen library handler "outgoing" "results-durable" (λ msg n. msg) (ok (7 ∷ 8 ∷ []) ∷ []) 0
    ≡ (ok tt, 8)
unfolding listen listen_rounds handle_each ◌>>=◌
listen_test = refl
