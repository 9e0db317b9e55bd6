-- ===== src/Messages/Nats/Made.antt =====
-- Where a handler of a bot comes from.
use threadr.Common.{String, Bool, ◌≡◌, ◌∙◌}
use threadr.Common.Exec.{ok, bind-eq-ok, lift-eq-ok, wrap-eq-ok}
use threadr.Messages.Nats.{NatsLibrary, NatsHandler, new_cloud_events_nats_handler, new_handler}

module _ {W K N J P C : Type 0} (nats : NatsLibrary W K N J P C) (nats_url : String) where
  -- The broker has made this handler for the subject and the stream.
  abbrev pub IsMadeFor : String → String → Bool → NatsHandler J C → Type 0
  IsMadeFor subject stream is_consumer handler =
      (w v : W) × (new_cloud_events_nats_handler nats nats_url subject stream is_consumer w
        ≡ (ok (ok handler), v))

  pub new_handler-IsMadeFor :
      (subject stream : String) (is_consumer : Bool) (handler : NatsHandler J C) (w v : W)
      → new_handler nats nats_url subject stream is_consumer w ≡ (ok handler, v)
      → IsMadeFor subject stream is_consumer handler
  unfolding new_handler
  new_handler-IsMadeFor subject stream is_consumer handler w v h =
      let (r, u, made, rest) = bind-eq-ok _ _ h in
      let (same, _) = lift-eq-ok (wrap-eq-ok _ _ rest) in (w, u, made ∙ (λ i. (ok (same i), u)))
