-- ===== src/Operator/Smoke/Wait/Sound.antt =====
-- What a wait returns.
use threadr.Common.{
  ℕ, zero, suc, Bool, true, false, Option, none, some, List, [], ◌∷◌, ◌≡◌, ◌⊎◌, inl, inr, refl, ap,
  subst, ltb, if◌then◌else◌,
}
use threadr.Common.Exec.{Result, ok, err, Exec, bind-eq-ok, pure-eq-ok, attempt-eq-ok, raise-ne-ok}
use threadr.Operator.Kube.{Deployment}
use threadr.Operator.Types.{ThreadrBot}
use threadr.Operator.Smoke.{SmokeTarget, Matches, not_skipped}
use threadr.Operator.Smoke.Wait.{
  Poller, Realized, deployment_key_of, found_or, try_bot, first_realized, timed_out, or_again,
  round, poll_if, wait,
}

module _ {W : Type 0} (poller : Poller W) where
  -- The bot is of the target, and a read of its deployment has answered this deployment.
  abbrev pub IsRealized : SmokeTarget → Realized → Type 0
  IsRealized target (bot, deployment) =
      Matches target (deployment_key_of bot)
      × ((u : W) × (v : W) × (poller.get_deployment (deployment_key_of bot) u ≡ (ok deployment, v)))

  pub skipped_or_not :
      (elsewhere otherwise : Bool) (rest this : Exec W (Option Realized)) (w w' : W)
      (r : Option Realized)
      → (if elsewhere then rest else if otherwise then rest else this) w ≡ (ok r, w')
      → (rest w ≡ (ok r, w')) ⊎ ((elsewhere ≡ false) × (otherwise ≡ false) × (this w ≡ (ok r, w')))
  skipped_or_not true otherwise rest this w w' r h = inl h
  skipped_or_not false true rest this w w' r h = inl h
  skipped_or_not false false rest this w w' r h = inr (refl, refl, h)

  found_here :
      (target : SmokeTarget) (bot : ThreadrBot) (found : Result Deployment)
      (rest : Exec W (Option Realized)) (u v w' : W) (realized : Realized)
      → Matches target (deployment_key_of bot)
      → poller.get_deployment (deployment_key_of bot) u ≡ (found, v)
      → ((x : W) → rest x ≡ (ok (some realized), w') → IsRealized target realized)
      → found_or poller bot found rest v ≡ (ok (some realized), w')
      → IsRealized target realized
  found_here target bot (ok deployment) rest u v w' realized match read later h =
      let (same, _) = pure-eq-ok h in
      let here : (bot, deployment) ≡ realized =
        ap (λ o. elim o [ some r ↦ r | none ↦ realized ]) same in
      subst (IsRealized target) here (match, (u, v, read))
  found_here target bot (err e) rest u v w' realized match read later h = later v h

  first_realized_sound :
      (target : SmokeTarget) (bots : List ThreadrBot) (w w' : W) (realized : Realized)
      → first_realized poller target bots w ≡ (ok (some realized), w')
      → IsRealized target realized
  unfolding first_realized
  first_realized_sound target [] w w' realized h = let (same, _) = pure-eq-ok h in absurd cc
  first_realized_sound target (bot ∷ bots) w w' realized h =
      let rest = first_realized poller target bots in
      elim (skipped_or_not _ _ rest (try_bot poller bot rest) w w' (some realized) h) [
        | inl later ↦ first_realized_sound target bots w w' realized later
        | inr (here, this, read) ↦
            let (found, v, got, more) = bind-eq-ok _ _ read in
            found_here target bot found rest w v w' realized
              (not_skipped target (deployment_key_of bot) here this)
              (attempt-eq-ok (poller.get_deployment (deployment_key_of bot)) got)
              (λ x later. first_realized_sound target bots x w' realized later) more
      ]

  module _ (target : SmokeTarget) (realized : Realized) (w' : W) (again : Exec W (Option Realized))
      (ih : (z : W) → again z ≡ (ok (some realized), w') → IsRealized target realized) where
    again_sound :
        (found : Option Realized) (x y : W)
        → round poller target x ≡ (ok found, y)
        → or_again poller found again y ≡ (ok (some realized), w')
        → IsRealized target realized
    again_sound (some r) x y searched h =
        let (same, _) = pure-eq-ok h in
        let (bots, z, listed, first) = bind-eq-ok _ _ searched in
        subst (IsRealized target) (ap (λ o. elim o [ some r ↦ r | none ↦ realized ]) same)
          (first_realized_sound target bots z y r first)
    again_sound none x y searched h = let (_, z, slept, rest) = bind-eq-ok _ _ h in ih z rest

    polled_sound :
        (early : Bool) (u : W)
        → poll_if poller early target again u ≡ (ok (some realized), w')
        → IsRealized target realized
    polled_sound false u h = absurd (raise-ne-ok (timed_out poller) u h)
    polled_sound true u h =
        let (found, y, searched, rest) = bind-eq-ok _ _ h in again_sound found u y searched rest

  -- Whatever a wait returns is a bot of the target, with the deployment that a read answered for it.
  pub wait_sound :
      (fuel deadline : ℕ) (target : SmokeTarget) (w w' : W) (realized : Realized)
      → wait poller fuel deadline target w ≡ (ok (some realized), w')
      → IsRealized target realized
  unfolding wait
  wait_sound zero deadline target w w' realized h = let (same, _) = pure-eq-ok h in absurd cc
  wait_sound (suc fuel) deadline target w w' realized h =
      let (time, u, read, polled) = bind-eq-ok _ _ h in
      polled_sound target realized w' (wait poller fuel deadline target)
        (λ z. wait_sound fuel deadline target z w' realized) (ltb time deadline) u polled
