-- ===== src/Operator/Smoke/Wait/Ends.antt =====
-- The fuel of a wait and the clock.
use threadr.Common.{
  ℕ, zero, suc, ◌-◌, ◌≤◌, ◌<◌, Bool, true, false, Option, none, some, List, [], ◌∷◌, ◌≡◌, ◌≢◌, inl,
  inr, sym, ap, ◌∙◌, ltb, arith,
}
use threadr.Common.Exec.{
  Result, ok, err, Exec, gets-eq-ok, bind-eq-ok, pure-eq-ok, attempt-eq-ok, raise-ne-ok,
}
use threadr.Operator.Kube.{ObjectKey, Deployment}
use threadr.Operator.Types.{ThreadrBot}
use threadr.Operator.Smoke.{SmokeTarget}
use threadr.Operator.Smoke.Wait.{
  Poller, Realized, deployment_key_of, found_or, try_bot, first_realized, timed_out, or_again,
  round, poll_if, wait,
}
use threadr.Operator.Smoke.Wait.Sound.{skipped_or_not}

-- The clock never goes back, and a sleep takes time.
module _ {W : Type 0} (poller : Poller W) where
  pub record PollerClock : Type 0 where
    pub list_later :
        (bots : List ThreadrBot) (w w' : W)
        → poller.list_all w ≡ (ok bots, w')
        → poller.now w ≤ poller.now w'
    pub get_later :
        (key : ObjectKey) (found : Result Deployment) (w w' : W)
        → poller.get_deployment key w ≡ (found, w')
        → poller.now w ≤ poller.now w'
    pub sleep_later : (w w' : W) → poller.sleep w ≡ (ok tt, w') → poller.now w < poller.now w'

module _ {W : Type 0} (poller : Poller W) (clock : PollerClock poller) where
  found_later :
      (bot : ThreadrBot) (found : Result Deployment) (rest : Exec W (Option Realized)) (v w' : W)
      (r : Option Realized)
      → ((x : W) → rest x ≡ (ok r, w') → poller.now x ≤ poller.now w')
      → found_or poller bot found rest v ≡ (ok r, w')
      → poller.now v ≤ poller.now w'
  found_later bot (ok deployment) rest v w' r later h =
      let (_, same) = pure-eq-ok h in omega (arith, ap poller.now same)
  found_later bot (err e) rest v w' r later h = later v h

  first_realized_later :
      (target : SmokeTarget) (bots : List ThreadrBot) (w w' : W) (r : Option Realized)
      → first_realized poller target bots w ≡ (ok r, w')
      → poller.now w ≤ poller.now w'
  unfolding first_realized
  first_realized_later target [] w w' r h =
      let (_, same) = pure-eq-ok h in omega (arith, ap poller.now same)
  first_realized_later target (bot ∷ bots) w w' r h =
      let rest = first_realized poller target bots in
      elim (skipped_or_not poller _ _ rest (try_bot poller bot rest) w w' r h) [
        | inl later ↦ first_realized_later target bots w w' r later
        | inr (here, this, read) ↦
            let (found, v, got, more) = bind-eq-ok _ _ read in
            let reading = attempt-eq-ok (poller.get_deployment (deployment_key_of bot)) got in
            omega (
              arith,
              clock.get_later (deployment_key_of bot) found w v reading,
              found_later bot found rest v w' r
                  (λ x later. first_realized_later target bots x w' r later) more,
            )
      ]

  module _ (target : SmokeTarget) (deadline fuel : ℕ) (w' : W) (again : Exec W (Option Realized))
      (ih : (z : W) → deadline - poller.now z < fuel → again z ≢ (ok none, w')) where
    again_ends :
        (found : Option Realized) (u y : W)
        → poller.now u < deadline
        → deadline - poller.now u < suc fuel
        → round poller target u ≡ (ok found, y)
        → or_again poller found again y ≢ (ok none, w')
    again_ends (some r) u y early enough searched h = let (same, _) = pure-eq-ok h in cc
    again_ends none u y early enough searched h =
        let (_, z, slept, rest) = bind-eq-ok _ _ h in
        let (bots, x, listed, first) = bind-eq-ok _ _ searched in
        ih z
          (omega (
            arith,
            clock.list_later bots u x listed,
            first_realized_later target bots x y none first,
            clock.sleep_later y z slept,
          ))
          rest

    polled_ends :
        (early : Bool) (u : W)
        → ltb (poller.now u) deadline ≡ early
        → deadline - poller.now u < suc fuel
        → poll_if poller early target again u ≢ (ok none, w')
    polled_ends false u is enough h = raise-ne-ok (timed_out poller) u h
    polled_ends true u is enough h =
        let (found, y, searched, rest) = bind-eq-ok _ _ h in
        again_ends found u y (ground arith) enough searched rest

  -- With more fuel than there is time until the deadline, a wait does not run out of fuel: it returns
  -- a bot, or an error.
  pub wait_ends :
      (fuel deadline : ℕ) (target : SmokeTarget) (w w' : W)
      → deadline - poller.now w < fuel
      → wait poller fuel deadline target w ≢ (ok none, w')
  unfolding wait
  wait_ends zero deadline target w w' enough h = absurd (omega arith)
  wait_ends (suc fuel) deadline target w w' enough h =
      let (time, u, read, polled) = bind-eq-ok _ _ h in
      let (is_time, same) = gets-eq-ok poller.now read in
      polled_ends target deadline fuel w' (wait poller fuel deadline target)
        (λ z more. wait_ends fuel deadline target z w' more) (ltb time deadline) u
        (ap (λ t. ltb t deadline) (ap poller.now (sym same) ∙ is_time))
        (omega (arith, ap poller.now same)) polled
