-- ===== src/Messages/Batch/Kept.antt =====
-- No event is lost between the subscription and the batches.
use threadr.Common.{
  arith, false, List, [], ◌∷◌, ◌++◌, append_assoc, append-nil, ◌≡◌, refl, sym, ap, ◌∙◌, length,
  ◌==◌,
}
use threadr.Common.Int.{IsPositive, is_nonpositive-pos}
use threadr.Common.Exec.{Result, ok, err, pure, bind_ok, wrap_result, attempt_result}
use threadr.Messages.Batch.{
  BatchConfig, BatchProcessor, Action, received, tick, BatchNats, new_batch_processor, add_decoded,
  process_batch, run, start_processor,
}

module _ {E : Type 0} where
  abbrev pub concat : List (List E) → List E
  concat [] = []
  concat (b ∷ bs) = b ++ concat bs

  -- All events that came in, in the batches and waiting.
  abbrev pub all_events : BatchProcessor E → List E
  all_events bp = concat bp.batches ++ bp.messages

  abbrev pub with_decoded : Result E → List E → List E
  with_decoded (ok event) events = event ∷ events
  with_decoded (err e) events = events

  concat-append : (bs cs : List (List E)) → concat (bs ++ cs) ≡ concat bs ++ concat cs
  concat-append [] cs = refl
  concat-append (b ∷ bs) cs =
      ap (λ r. b ++ r) (concat-append bs cs) ∙ sym (append_assoc b (concat bs) (concat cs))

  taken :
      (batches : List (List E)) (messages : List E) (config : BatchConfig)
      → all_events
          (process_batch (record { messages = messages; batches = batches; config = config }))
        ≡ concat batches ++ messages
  unfolding process_batch
  taken batches [] config = refl
  taken batches (m ∷ ms) config =
      let waits : length (m ∷ ms) == 0 ≡ false = ground arith in
      rw waits (
        append-nil _
        ∙ concat-append batches ((m ∷ ms) ∷ [])
        ∙ ap (λ r. concat batches ++ r) (append-nil (m ∷ ms)))

  decoded_counts :
      (r : Result E) (bp : BatchProcessor E) (rest : List E)
      → all_events (add_decoded r bp) ++ rest ≡ all_events bp ++ with_decoded r rest
  decoded_counts (ok event) bp rest =
      ap (λ r. r ++ rest) (sym (append_assoc (concat bp.batches) bp.messages (event ∷ [])))
      ∙ append_assoc (all_events bp) (event ∷ []) rest
  decoded_counts (err e) bp rest = refl

module _ {M E : Type 0} (unmarshal : M → Result E) where
  -- The events of the messages that decode, in the order in which they come.
  abbrev pub decoded_events : List (Action M) → List E
  decoded_events [] = []
  decoded_events (received msg ∷ actions) = with_decoded (unmarshal msg) (decoded_events actions)
  decoded_events (tick ∷ actions) = decoded_events actions

  pub run_keeps_all :
      (actions : List (Action M)) (bp : BatchProcessor E)
      → all_events (run unmarshal actions bp) ≡ all_events bp ++ decoded_events actions
  unfolding run
  run_keeps_all [] bp = sym (append-nil (all_events bp))
  run_keeps_all (received msg ∷ actions) bp =
      run_keeps_all actions (add_decoded (unmarshal msg) bp)
      ∙ decoded_counts (unmarshal msg) bp (decoded_events actions)
  run_keeps_all (tick ∷ actions) bp =
      run_keeps_all actions (process_batch bp)
      ∙ ap (λ r. r ++ decoded_events actions) (taken bp.batches bp.messages bp.config)

module _ {W N M E : Type 0} (nats : BatchNats W N) (unmarshal : M → Result E) (config : BatchConfig)
    (nc : N) (w u v : W) where
  started :
      (actions : List (Action M))
      → IsPositive config.process_interval
      → nats.connect config.nats_url w ≡ (ok nc, u)
      → nats.subscribe nc config.subject u ≡ (ok tt, v)
      → start_processor unmarshal nats actions (new_batch_processor config) w
        ≡ (ok (run unmarshal actions (new_batch_processor config)), (nats.close nc v).1)
  unfolding start_processor pure
  started actions positive connected subscribed =
      rw (is_nonpositive-pos config.process_interval positive) (
        bind_ok _ _ (wrap_result _ _ connected)
        ∙ bind_ok _ _ (bind_ok _ _ (wrap_result _ _ subscribed) ∙ attempt_result _ refl))

  -- Started with a positive interval, on a connection and a subscription that are made, a batch
  -- processor runs until its context is done, and then has closed the connection; however its two
  -- goroutines have taken turns, each event that came in a message that decodes is in exactly one
  -- batch or still waits, in the order of arrival, and nothing else is.
  pub start_keeps_all :
      (actions : List (Action M))
      → IsPositive config.process_interval
      → nats.connect config.nats_url w ≡ (ok nc, u)
      → nats.subscribe nc config.subject u ≡ (ok tt, v)
      → (bp : BatchProcessor E) × (all_events bp ≡ decoded_events unmarshal actions)
        × (start_processor unmarshal nats actions (new_batch_processor config) w
            ≡ (ok bp, (nats.close nc v).1))
  start_keeps_all actions positive connected subscribed = (
    run unmarshal actions (new_batch_processor config),
    run_keeps_all unmarshal actions (new_batch_processor config),
    started actions positive connected subscribed,
  )
