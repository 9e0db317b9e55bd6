-- ===== src/Messages/Nats/SetUp.antt =====
-- When a handler is set up.
use threadr.Common.{String, Bool, Option, ◌≡◌, ◌↔◌, refl, sym, ◌∙◌, arith}
use threadr.Common.Exec.{
  Err, Result, ok, err, pure, wrap, wrap_err, bind_ok, bind_err, wrap_result, attempt_result,
  wrap_lifted, ◌>>=◌,
}
use threadr.Messages.Nats.{
  NatsConfig, NatsLibrary, NatsHandler, or_nil, nats_opts, connect_handler,
  new_cloud_events_nats_handler, create_cloud_events_handler,
}

abbrev pub handler_of : {J C : Type 0} → J → NatsConfig → Result C → Result (NatsHandler J C)
handler_of js env (ok client) = ok (record { client = client; js = js; config = env })
handler_of js env (err e) = err (Err.wrapped "failed to create CloudEvents client" e)

pure_lem : {W A : Type 0} (a : A) (w : W) → pure a w ≡ (ok a, w)
unfolding pure
pure_lem a w = refl

module _ {J C : Type 0} (js : J) (env : NatsConfig) where
  handler_of_iff :
      (client : Result C) (handler : NatsHandler J C)
      → (wrap_err "failed to create CloudEvents handler" (handler_of js env client) ≡ ok handler)
        ↔ ((client ≡ ok handler.client) × (js ≡ handler.js) × (env ≡ handler.config))
  handler_of_iff (ok client) handler = ground arith
  handler_of_iff (err e) handler = ground arith

module _ {W K N J P C : Type 0} (nats : NatsLibrary W K N J P C) (env : NatsConfig) (js : J) where
  client_made :
      (p : Option P) (client : Result C) (x y : W)
      → nats.new_client p x ≡ (client, y)
      → (wrap "failed to create CloudEvents client" (nats.new_client p) >>= λ c.
            pure (record { client = c; js = js; config = env }))
          x
        ≡ (handler_of js env client, y)
  client_made p (ok c) x y h = bind_ok _ _ (wrap_result _ _ h) ∙ pure_lem _ y
  client_made p (err e) x y h = bind_err _ _ (wrap_result _ _ h)

module _ {W K N J P C : Type 0} (nats : NatsLibrary W K N J P C) (env : NatsConfig)
    (nats_url subject stream : String) (subscribe : Bool) (nc : N) (js : J) (protocol : Result P)
    (client : Result C) (w u v x y : W) where
  connected :
      nats.connect env.nats_url (nats_opts nats env) w ≡ (ok nc, u)
      → nats.jet_stream nc u ≡ (ok js, v)
      → nats.new_protocol nats_url stream subject subject (nats_opts nats env) v ≡ (protocol, x)
      → nats.new_client (or_nil protocol) x ≡ (client, y)
      → connect_handler nats env nats_url subject stream w ≡ (handler_of js env client, y)
  unfolding connect_handler
  connected reached streams made answered =
      bind_ok _ _ (wrap_result _ _ reached)
      ∙ bind_ok _ _ (wrap_result _ _ streams)
      ∙ bind_ok _ _ (attempt_result _ made)
      ∙ client_made nats env js (or_nil protocol) client x y answered

  -- Once the environment is read and the connection and its stream are there, the set-up gives a
  -- handler exactly if the client accepts what the making of the protocol has left, which is nil where
  -- it failed: that failure is no error of the set-up. The handler holds this client, the stream, and
  -- the configuration.
  pub create_handler_iff :
      (handler : NatsHandler J C)
      → nats.process ≡ ok env
      → nats.connect env.nats_url (nats_opts nats env) w ≡ (ok nc, u)
      → nats.jet_stream nc u ≡ (ok js, v)
      → nats.new_protocol nats_url stream subject subject (nats_opts nats env) v ≡ (protocol, x)
      → nats.new_client (or_nil protocol) x ≡ (client, y)
      → (create_cloud_events_handler nats nats_url subject stream subscribe w
          ≡ (ok (ok handler), y))
        ↔ ((client ≡ ok handler.client) × (js ≡ handler.js) × (env ≡ handler.config))
  unfolding create_cloud_events_handler new_cloud_events_nats_handler
  create_handler_iff handler read reached streams made answered =
      let done : create_cloud_events_handler nats nats_url subject stream subscribe w
          ≡ (ok (wrap_err "failed to create CloudEvents handler" (handler_of js env client)), y) =
        bind_ok _ _ (
          bind_ok _ _ (wrap_lifted "Failed to process NATS config" nats.process w read)
          ∙ attempt_result _ (connected reached streams made answered))
        ∙ pure_lem _ y in
      let iff = handler_of_iff js env client handler in
      ((λ h. iff.0 (ground (arith, sym done ∙ h))), (λ h. done ∙ (λ i. (ok (iff.1 h i), y))))
