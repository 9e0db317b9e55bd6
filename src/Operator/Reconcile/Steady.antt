-- ===== src/Operator/Reconcile/Steady.antt =====
-- What a reconciliation does in a cluster that is as desired.
use threadr.Common.{String, true, Option, none, some, ◌≡◌, ◌≢◌, ◌∙◌}
use threadr.Common.Exec.{ok, pure, lift, attempt, wrap, bind_ok, attempt_result, wrap_result}
use threadr.Operator.Kube.{ObjectKey, Deployment}
use threadr.Operator.Types.{ThreadrBot}
use threadr.Operator.Client.{Client, deployment_key}
use threadr.Operator.Deployment.Desired.{desired_deployment}
use threadr.Operator.Deployment.Drift.Managed.{Managed}
use threadr.Operator.Deployment.Drift.Exact.{update_reasons_iff}
use threadr.Operator.Status.{
  StatusReporter, phase_for, observed_status, threadr_bot_status_equivalent,
  update_threadr_bot_status,
}
use threadr.Operator.Reconcile.{
  update_if_needed, apply_deployment, reconcile_live, reconcile_bot, reconcile_found, reconcile,
}
use threadr.Operator.Reconcile.Converge.{is_deleted-false}

module _ {W : Type 0} (c : Client W) (reporter : StatusReporter W) where
  update_unneeded :
      (current owned : Deployment) (w : W)
      → Managed current owned
      → update_if_needed c reporter current owned w ≡ (ok current, w)
  unfolding update_if_needed pure
  update_unneeded current owned w m = rw ((update_reasons_iff current owned).1 m)

  status_unchanged :
      (bot : ThreadrBot) (d : Option Deployment) (phase : String) (w : W)
      → threadr_bot_status_equivalent bot.status (observed_status bot d phase) ≡ true
      → update_threadr_bot_status c reporter bot d phase w ≡ (ok tt, w)
  unfolding update_threadr_bot_status pure
  status_unchanged bot d phase w same = rw same

  -- If the live deployment has every managed field of the desired one and the bot's status says what
  -- is observed, a reconciliation reads the bot and the deployment and does nothing else: it ends
  -- without error in the world that the second read leaves.
  pub steady_reconcile :
      (request : ObjectKey) (bot : ThreadrBot) (owned current : Deployment) (w u v : W)
      → c.get_bot request w ≡ (ok bot, u)
      → bot.spec.desired_state ≢ "deleted"
      → bot.metadata.deletion_timestamp ≡ none
      → c.set_controller_reference bot (desired_deployment c.decimal bot) ≡ ok owned
      → c.get_deployment (deployment_key owned) u ≡ (ok current, v)
      → Managed current owned
      → threadr_bot_status_equivalent bot.status
          (observed_status bot (some current) (phase_for bot current))
        ≡ true
      → reconcile c reporter request w ≡ (ok tt, v)
  unfolding reconcile reconcile_found reconcile_bot
  steady_reconcile request bot owned current w u v got wanted kept own read managed same =
      bind_ok (attempt (c.get_bot request)) _ (attempt_result (c.get_bot request) got)
      ∙ rw (is_deleted-false bot wanted kept) live
    where
      live : reconcile_live c reporter bot (desired_deployment c.decimal bot) u ≡ (ok tt, v)
      live =
          unfold reconcile_live apply_deployment lift in
          (bind_ok
              (wrap "set controller reference"
                (lift (c.set_controller_reference bot (desired_deployment c.decimal bot))))
              _ {a = owned} {w = u} {v = u}
              (wrap_result "set controller reference"
                (lift (c.set_controller_reference bot (desired_deployment c.decimal bot)))
                {r = ok owned} {w = u} {v = u} (λ i. (own i, u)))
            ∙ (bind_ok (attempt (c.get_deployment (deployment_key owned))) _ {a = ok current}
                  {w = u} {v = v} (attempt_result (c.get_deployment (deployment_key owned)) read)
                ∙ (bind_ok (update_if_needed c reporter current owned) _ {a = current} {w = v}
                      {v = v} (update_unneeded current owned v managed)
                    ∙ status_unchanged bot (some current) (phase_for bot current) v same)))
