-- ===== src/Operator/Smoke/Wait.antt =====
-- `waitForContractRealization`: polling until a bot of the target has its deployment, or until the
-- deadline. The API reader, the clock and `time.Sleep` are the record `Poller`.
pub mod Sound
pub mod Ends
use threadr.Common.{
  ℕ, zero, suc, ◌+◌, ◌-◌, ◌≤◌, ◌<◌, String, Bool, true, false, Option, none, some, List, [], ◌∷◌,
  ◌&&◌, not, ◌≡◌, ◌⊎◌, ◌≢◌, inl, inr, refl, sym, ap, ◌∙◌, subst, ltb, if◌then◌else◌, str_eq,
  str_eq_iff, Bool-cases, arith,
}
use threadr.Common.Exec.{
  Result, ok, err, failed, Err, Exec, pure, raise, gets, attempt, bind-eq-ok, pure-eq-ok,
  attempt-eq-ok, raise-ne-ok, ◌>>=◌, ◌>>◌,
}
use threadr.Operator.Kube.{ObjectKey, Deployment}
use threadr.Operator.Types.{ThreadrBot}
use threadr.Operator.Smoke.{SmokeTarget, Matches, not_skipped}

pub record Poller (W : Type 0) : Type 0 where
  pub list_all : Exec W (List ThreadrBot)
  pub get_deployment : ObjectKey → Exec W Deployment
  pub sleep : Exec W Unit
  pub now : W → ℕ

abbrev pub deployment_key_of : ThreadrBot → ObjectKey
deployment_key_of bot = record {
  namespace = bot.metadata.namespace;
  name = bot.spec.workload.deployment_name;
}

abbrev pub Realized : Type 0
Realized = ThreadrBot × Deployment

module _ {W : Type 0} (poller : Poller W) where
  abbrev pub found_or :
      ThreadrBot → Result Deployment → Exec W (Option Realized) → Exec W (Option Realized)
  found_or bot (ok deployment) rest = pure (some (bot, deployment))
  found_or bot (err e) rest = rest

  abbrev pub try_bot : ThreadrBot → Exec W (Option Realized) → Exec W (Option Realized)
  try_bot bot rest =
      attempt (poller.get_deployment (deployment_key_of bot)) >>= λ found. found_or bot found rest

  -- One round over the bots; an error of a read only means that the bot is not there yet.
  unfoldable pub first_realized : SmokeTarget → List ThreadrBot → Exec W (Option Realized)
  first_realized target [] = pure none
  first_realized target (bot ∷ bots) =
      let rest = first_realized target bots in
      if not (str_eq target.namespace "") && not (str_eq bot.metadata.namespace target.namespace)
      then rest
      else if not (str_eq target.deployment_name "")
          && not (str_eq bot.spec.workload.deployment_name target.deployment_name)
      then rest
      else try_bot bot rest

  abbrev pub timed_out : Err
  timed_out = failed "timed out waiting for ThreadrBot and Deployment"

  abbrev pub or_again : Option Realized → Exec W (Option Realized) → Exec W (Option Realized)
  or_again (some realized) again = pure (some realized)
  or_again none again = poller.sleep >> again

  abbrev pub round : SmokeTarget → Exec W (Option Realized)
  round target = poller.list_all >>= λ bots. first_realized target bots

  abbrev pub poll_if : Bool → SmokeTarget → Exec W (Option Realized) → Exec W (Option Realized)
  poll_if false target again = raise timed_out
  poll_if true target again = round target >>= λ found. or_again found again

  -- `none` is a run that is out of fuel: a unit of fuel is a round.
  unfoldable pub wait : ℕ → ℕ → SmokeTarget → Exec W (Option Realized)
  wait zero deadline target = pure none
  wait (suc fuel) deadline target =
      gets poller.now >>= λ time. poll_if (ltb time deadline) target (wait fuel deadline target)
