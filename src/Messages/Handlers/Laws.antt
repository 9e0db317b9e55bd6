-- ===== src/Messages/Handlers/Laws.antt =====
-- What the handlers and the broker make of their events.
use threadr.Common.{
  ℕ, String, List, [], ◌∷◌, ◌++◌, ◌≡◌, ◌↔◌, refl, sym, ◌∙◌, ◌==◌, ==_iff, Bool-cases, inl, inr,
}
use threadr.Common.Exec.{
  Result, ok, err, Exec, pure, attempt, bind_ok, wrap_result, wrap-eq-ok, lift-eq-ok,
  attempt_result, raise-ne-ok, wrap_lifted,
}
use threadr.Messages.Handlers.{
  handle_all, Mistral, check_generated, mistral_handle, handle_each, listen_rounds,
}

-- The world after each handler has had its turn.
abbrev pub after_all : {W E : Type 0} → List (E → Exec W (Unit {0})) → E → W → W
after_all [] event w = w
after_all (handler ∷ handlers) event w = after_all handlers event (handler event w).1

-- The composite handler never fails, and calls each of its handlers once, in order, whatever the
-- handlers before it have returned.
handle_all_total :
    {W E : Type 0} (handlers : List (E → Exec W (Unit {0}))) (event : E) (w : W)
    → handle_all handlers event w ≡ (ok tt, after_all handlers event w)
unfolding handle_all pure
handle_all_total [] event w = refl
handle_all_total (handler ∷ handlers) event w =
    bind_ok (attempt (handler event)) _ (
      attempt_result (handler event) {r = (handler event w).0} {w = w} {v = (handler event w).1}
        refl)
    ∙ handle_all_total handlers event (handler event w).1

module _ {W E : Type 0} (mistral : Mistral W E) where
  check_generated-ok :
      (code : ℕ) (body : String) (w w' : W)
      → check_generated mistral (code, body) w ≡ (ok tt, w')
      → (code ≡ 200) × (mistral.decode body ≡ ok tt)
  unfolding check_generated
  check_generated-ok code body w w' h = elim (Bool-cases (code == 200)) [
    | inl good ↦
        let (decoded, _) = lift-eq-ok (wrap-eq-ok _ _ (rw good at h)) in
        ((==_iff code 200).0 good, decoded)
    | inr bad ↦ absurd (raise-ne-ok _ w (rw bad at h))
  ]

  check_generated_decoded :
      (code : ℕ) (body : String) (w : W)
      → code ≡ 200
      → mistral.decode body ≡ ok tt
      → check_generated mistral (code, body) w ≡ (ok tt, w)
  unfolding check_generated
  check_generated_decoded code body w good decoded =
      rw ((==_iff code 200).1 good) (
        wrap_lifted "failed to decode response from Mistral service" (mistral.decode body) w
          decoded)

  -- Once an event is read, its payload made and an answer received, the Mistral handler succeeds
  -- exactly if the answer is 200 and its body decodes.
  pub mistral_handle_iff :
      (event : E) (nick message payload body : String) (code : ℕ) (w v : W)
      → mistral.data_as event ≡ ok (nick, message)
      → mistral.marshal nick message ≡ ok payload
      → mistral.post payload w ≡ (ok (code, body), v)
      → (mistral_handle mistral event w ≡ (ok tt, v))
        ↔ ((code ≡ 200) × (mistral.decode body ≡ ok tt))
  unfolding mistral_handle
  mistral_handle_iff event nick message payload body code w v read made posted =
      let checked : mistral_handle mistral event w ≡ check_generated mistral (code, body) v =
        bind_ok _ _ (wrap_lifted "failed to parse message data" (mistral.data_as event) w read)
        ∙ bind_ok _ _
            (wrap_lifted "failed to marshal request payload" (mistral.marshal nick message) w made)
        ∙ bind_ok _ _ (
            wrap_result "failed to send request to Mistral service" (mistral.post payload)
              posted) in
      (
        (λ h. check_generated-ok code body v v (sym checked ∙ h)),
        (λ (good, decoded). checked ∙ check_generated_decoded code body v good decoded),
      )

module _ {W M : Type 0} (handler : M → W → W) where
  -- The messages of the fetches that succeed, in order.
  abbrev pub fetched : List (Result (List M)) → List M
  fetched [] = []
  fetched (ok msgs ∷ fetches) = msgs ++ fetched fetches
  fetched (err e ∷ fetches) = fetched fetches

  handle_each-append :
      (xs ys : List M) (w : W)
      → handle_each handler (xs ++ ys) w ≡ handle_each handler ys (handle_each handler xs w)
  unfolding handle_each
  handle_each-append [] ys w = refl
  handle_each-append (x ∷ xs) ys w = handle_each-append xs ys (handler x w)

  -- Whichever fetches fail, the broker hands every message that is fetched to the handler, once and in
  -- order.
  listen_rounds_handles_all :
      (fetches : List (Result (List M))) (w : W)
      → listen_rounds handler fetches w ≡ handle_each handler (fetched fetches) w
  unfolding listen_rounds
  listen_rounds_handles_all [] w = unfold handle_each in refl
  listen_rounds_handles_all (ok msgs ∷ fetches) w =
      listen_rounds_handles_all fetches (handle_each handler msgs w)
      ∙ sym (handle_each-append msgs (fetched fetches) w)
  listen_rounds_handles_all (err e ∷ fetches) w = listen_rounds_handles_all fetches w
