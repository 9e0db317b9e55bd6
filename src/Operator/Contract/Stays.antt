-- ===== src/Operator/Contract/Stays.antt =====
-- A contract's deployment, while the operator goes on with other bots.
use threadr.Common.{◌≡◌, ◌≢◌}
use threadr.Common.Exec.{ok, Exec}
use threadr.Common.Exec.Preserves.{Preserves}
use threadr.Operator.Kube.{ObjectKey, Deployment}
use threadr.Operator.Types.{ThreadrBot}
use threadr.Operator.Client.{Client, deployment_key}
use threadr.Operator.Deployment.Desired.{desired_deployment}
use threadr.Operator.Status.{StatusReporter}
use threadr.Operator.Status.Quiet.{Quiet}
use threadr.Operator.Reconcile.{reconcile}

module _ {W : Type 0} (c : Client W) (reporter : StatusReporter W) where
  -- Reconciliations, each with any outcome, of bots whose deployments have other names than this.
  pub data Rounds (name : ObjectKey) : W → W → Type 0 where
    done : {w : W} → Rounds name w w
    one_more :
        {w z : W} (request : ObjectKey)
        → ((bot : ThreadrBot) (v : W)
            → c.get_bot request w ≡ (ok bot, v)
            → deployment_key (desired_deployment c.decimal bot) ≢ name)
        → Rounds name (reconcile c reporter request w).1 z
        → Rounds name w z
