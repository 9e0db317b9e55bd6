-- ===== src/Messages/Batch.antt =====
-- `BatchProcessor` of batch_processor.go. `AddMessage` and the exchange at the start of `processBatch`
-- hold the mutex, so that a run is a sequence of whole steps of the two goroutines. NATS and the
-- decoding of cloudevents are parameters.
pub mod Kept
use threadr.Common.{String, List, [], ◌∷◌, ◌++◌, length, ◌==◌, if◌then◌else◌}
use threadr.Common.Int.{ℤ, is_nonpositive}
use threadr.Common.Exec.{Result, ok, err, failed, Exec, pure, raise, attempt, wrap, ◌>>=◌, ◌>>◌}

-- The options of NATS are kept too, but no call is given them.
pub record BatchConfig : Type 0 where
  pub process_interval : ℤ
  pub mistral_url : String
  pub stream : String
  pub subject : String
  pub nats_url : String

-- What waits, and the batches that were taken, the latest last; an empty batch is dropped. Of a batch
-- only the taking is modelled, since its processing is a TODO of the code.
pub record BatchProcessor (E : Type 0) : Type 0 where
  pub messages : List E
  pub batches : List (List E)
  pub config : BatchConfig

pub data Action (M : Type 0) : Type 0 where
  received : M → Action M
  tick : Action M

pub record BatchNats (W N : Type 0) : Type 0 where
  pub connect : String → Exec W N
  pub subscribe : N → String → Exec W (Unit {0})
  pub close : N → Exec W (Unit {0})

module _ {E : Type 0} where
  abbrev pub new_batch_processor : BatchConfig → BatchProcessor E
  new_batch_processor config = record { messages = []; batches = []; config = config }

  abbrev pub add_message : E → BatchProcessor E → BatchProcessor E
  add_message event bp = record bp { messages = bp.messages ++ event ∷ [] }

  unfoldable pub process_batch : BatchProcessor E → BatchProcessor E
  process_batch bp =
      if length bp.messages == 0
      then record bp { messages = [] }
      else record bp { messages = []; batches = bp.batches ++ bp.messages ∷ [] }

  -- A message that does not decode is only logged.
  abbrev pub add_decoded : Result E → BatchProcessor E → BatchProcessor E
  add_decoded (ok event) bp = add_message event bp
  add_decoded (err e) bp = bp

module _ {M E : Type 0} (unmarshal : M → Result E) where
  abbrev pub act : Action M → BatchProcessor E → BatchProcessor E
  act (received msg) bp = add_decoded (unmarshal msg) bp
  act tick bp = process_batch bp

  -- What happens until the context is done.
  unfoldable pub run : List (Action M) → BatchProcessor E → BatchProcessor E
  run [] bp = bp
  run (a ∷ actions) bp = run actions (act a bp)

  -- A ticker panics at an interval that is not positive; the other errors are `log.Fatalf`. The
  -- subscription, in a goroutine of its own, is taken to be there before the first tick, and its
  -- connection is closed when the context is done.
  unfoldable pub start_processor :
      {W N : Type 0}
      → BatchNats W N
      → List (Action M)
      → BatchProcessor E
      → Exec W (BatchProcessor E)
  start_processor nats actions bp =
      if is_nonpositive bp.config.process_interval
      then raise (failed "non-positive interval for NewTicker")
      else (wrap "Failed to connect to NATS" (nats.connect bp.config.nats_url) >>= λ nc.
          wrap "Failed to subscribe to NATS" (nats.subscribe nc bp.config.subject)
          >> attempt (nats.close nc)
          >> pure (run actions bp))
