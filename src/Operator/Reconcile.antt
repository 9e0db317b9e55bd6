-- ===== src/Operator/Reconcile.antt =====
-- `Reconcile` of threadrbot_controller.go, with `deleteDeploymentIfPresent`. The result of the call
-- is always the empty `ctrl.Result`, so only the error is kept.
pub mod Converge
pub mod Steady
pub mod Isolated
pub mod Settled
pub mod Again
use threadr.Common.{
  ℕ, Bool, true, false, Option, none, some, ◌||◌, length, ltb, if◌then◌else◌, str_eq,
}
use threadr.Common.Exec.{
  is_not_found, Result, ok, err, Exec, pure, raise, lift, attempt, wrap, ◌>>=◌, ◌>>◌,
}
use threadr.Operator.Kube.{ObjectKey, Deployment}
use threadr.Operator.Types.{ThreadrBot}
use threadr.Operator.Client.{Client, deployment_key}
use threadr.Operator.Deployment.Desired.{desired_deployment}
use threadr.Operator.Deployment.Drift.{deployment_update_reasons}
use threadr.Operator.Status.{StatusReporter, phase_for, update_threadr_bot_status}

abbrev pub is_set : Option ℕ → Bool
is_set none = false
is_set (some t) = true

unfoldable pub is_deleted : ThreadrBot → Bool
is_deleted bot = str_eq bot.spec.desired_state "deleted" || is_set bot.metadata.deletion_timestamp

-- The three fields of the live deployment that an update overwrites.
abbrev pub overwritten : Deployment → Deployment → Deployment
overwritten current deployment = record current {
  spec = deployment.spec;
  metadata = record current.metadata {
    labels = deployment.metadata.labels;
    annotations = deployment.metadata.annotations;
  };
}

module _ {W : Type 0} (c : Client W) (reporter : StatusReporter W) where
  unfoldable pub delete_found : Result Deployment → Exec W (Unit {0})
  delete_found (ok deployment) = c.delete_deployment deployment
  delete_found (err e) = if is_not_found e then pure tt else raise e

  unfoldable pub delete_deployment_if_present : ObjectKey → Exec W (Unit {0})
  delete_deployment_if_present key = do found ← attempt (c.get_deployment key); delete_found found

  unfoldable pub update_if_needed : Deployment → Deployment → Exec W Deployment
  update_if_needed current deployment =
      if ltb 0 (length (deployment_update_reasons current deployment))
      then c.update_deployment (overwritten current deployment)
      else pure current

  -- The `switch` on what the read of the deployment gave.
  unfoldable pub apply_deployment : ThreadrBot → Deployment → Result Deployment → Exec W (Unit {0})
  apply_deployment bot deployment (err e) =
      if is_not_found e
      then (do
        created ← c.create_deployment deployment
        update_threadr_bot_status c reporter bot (some created) "reconciling")
      else raise e
  apply_deployment bot deployment (ok current) = do
    live ← update_if_needed current deployment
    update_threadr_bot_status c reporter bot (some live) (phase_for bot live)

  unfoldable pub reconcile_deleted : ThreadrBot → Deployment → Exec W (Unit {0})
  reconcile_deleted bot deployment = do
    delete_deployment_if_present (deployment_key deployment)
    update_threadr_bot_status c reporter bot none "deleting"

  unfoldable pub reconcile_live : ThreadrBot → Deployment → Exec W (Unit {0})
  reconcile_live bot deployment = do
    owned ← wrap "set controller reference" (lift (c.set_controller_reference bot deployment))
    found ← attempt (c.get_deployment (deployment_key owned))
    apply_deployment bot owned found

  unfoldable pub reconcile_bot : ThreadrBot → Exec W (Unit {0})
  reconcile_bot bot =
      let deployment = desired_deployment c.decimal bot in
      if is_deleted bot then reconcile_deleted bot deployment else reconcile_live bot deployment

  unfoldable pub reconcile_found : Result ThreadrBot → Exec W (Unit {0})
  reconcile_found (ok bot) = reconcile_bot bot
  reconcile_found (err e) = if is_not_found e then pure tt else raise e

  unfoldable pub reconcile : ObjectKey → Exec W (Unit {0})
  reconcile request = do found ← attempt (c.get_bot request); reconcile_found found
