-- ===== src/Messages/Tests/Batch.antt =====
-- A processor of numbers, of which 0 does not decode; the world counts the calls of NATS.
use threadr.Common.{ℕ, zero, suc, List, [], ◌∷◌, ◌≡◌, refl, arith}
use threadr.Common.Int.{pos, negsuc}
use threadr.Common.Exec.{Result, ok, err, failed, not_found, ◌>>=◌}
use threadr.Messages.Batch.{
  BatchConfig, BatchProcessor, Action, received, tick, BatchNats, new_batch_processor,
  process_batch, run, start_processor,
}
use threadr.Messages.Batch.Kept.{all_events, decoded_events, start_keeps_all}

abbrev unmarshal : ℕ → Result ℕ
unmarshal zero = err not_found
unmarshal (suc n) = ok (suc n)

abbrev config : BatchConfig
config = record {
  process_interval = pos 5;
  mistral_url = "m";
  stream = "s";
  subject = "chat";
  nats_url = "n";
}

abbrev nats : BatchNats ℕ ℕ
nats = record {
  connect = λ url n. (ok 7, suc n);
  subscribe = λ nc subject n. (ok tt, suc n);
  close = λ nc n. (err not_found, suc n);
}

abbrev turns : List (Action ℕ)
turns = received 1 ∷ received 2 ∷ tick ∷ tick ∷ received 0 ∷ received 3 ∷ []

start_test :
    start_processor unmarshal nats turns (new_batch_processor config) 0
    ≡ (ok (record { messages = 3 ∷ []; batches = (1 ∷ 2 ∷ []) ∷ []; config = config }), 3)
unfolding start_processor run process_batch ◌>>=◌
start_test = refl

-- Without a positive interval nothing is connected.
panics_test :
    start_processor unmarshal nats turns
      (new_batch_processor (record config { process_interval = negsuc 0 }))
      0
    ≡ (err (failed "non-positive interval for NewTicker"), 0)
unfolding start_processor ◌>>=◌
panics_test = refl

start_keeps_all_example :
    (bp : BatchProcessor ℕ) × (all_events bp ≡ decoded_events unmarshal turns)
    × (start_processor unmarshal nats turns (new_batch_processor config) 0 ≡ (ok bp, 3))
start_keeps_all_example =
    start_keeps_all nats unmarshal config 7 0 1 2 turns (omega arith) refl refl
