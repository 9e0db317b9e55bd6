-- ===== src/Operator/Reconcile/Again.antt =====
-- A reconciliation after one that has found its deployment and has ended without error.
use threadr.Common.{none, some, ◌≡◌, ◌≢◌, sym, ap, ◌∙◌, subst}
use threadr.Common.Exec.{ok}
use threadr.Common.Exec.Preserves.{view-result}
use threadr.Operator.Kube.{ObjectKey, Deployment}
use threadr.Operator.Types.{ThreadrBot, bot_key}
use threadr.Operator.Client.{Client, deployment_key}
use threadr.Operator.Client.Server.{DeploymentServer, BotServer, Isolates, StatusServer}
use threadr.Operator.Deployment.Desired.{desired_deployment}
use threadr.Operator.Deployment.Laws.{desired_deployment_same}
use threadr.Operator.Deployment.Drift.Managed.{Managed}
use threadr.Operator.Status.{StatusReporter}
use threadr.Operator.Status.Quiet.{Quiet}
use threadr.Operator.Reconcile.{reconcile}
use threadr.Operator.Reconcile.Steady.{steady_reconcile}
use threadr.Operator.Reconcile.Settled.{IsToldOf, Settled, reconciled-Settled}

some_inj : {A : Type 0} (a b : A) → some a ≡ some b → a ≡ b
some_inj a b h = ap (λ o. elim o [ some x ↦ x | none ↦ a ]) h

module _ {W : Type 0} (c : Client W) (reporter : StatusReporter W) (b : BotServer c)
    (status : StatusServer c b.bot_at) (untouched : Quiet b.bot_at reporter)
    (d : DeploymentServer c) (still : Quiet d.deployment_at reporter)
    (isolates : Isolates c d.deployment_at) where
  open b use {bot_at}
  open d use {deployment_at}

  module _ (request : ObjectKey) (bot next : ThreadrBot) (owned live : Deployment) (w u v : W)
      (settled : Settled c reporter b status untouched d still isolates bot w)
      (named : bot_key bot ≡ request) (got : c.get_bot request w ≡ (ok next, u))
      (own : c.set_controller_reference next (desired_deployment c.decimal next) ≡ ok owned)
      (read : c.get_deployment (deployment_key owned) u ≡ (ok live, v)) where
    told_next : settled.told ≡ next
    told_next =
        some_inj _ _ (sym settled.told_at ∙ ap (bot_at w) named ∙ (b.get_ok request next w u got).0)

    desired_next : desired_deployment c.decimal bot ≡ desired_deployment c.decimal next
    desired_next =
        desired_deployment_same c.decimal bot next
          (ap (λ m. m.labels) settled.same.0 ∙ ap (λ (x : ThreadrBot). x.metadata.labels) told_next)
          (ap (λ m. m.namespace) settled.same.0
            ∙ ap (λ (x : ThreadrBot). x.metadata.namespace) told_next)
          (settled.same.1 ∙ ap (λ (x : ThreadrBot). x.spec) told_next)

    live_next : settled.live ≡ live
    live_next =
        let (o, owner_only) =
          d.controller_reference next (desired_deployment c.decimal next) owned own in
        let (there, _) = d.get_ok (deployment_key owned) live u v read in
        some_inj _ _ (
          sym settled.stored
          ∙ ap (deployment_at w)
              (ap deployment_key desired_next ∙ sym (ap deployment_key owner_only))
          ∙ ap (λ view. view (deployment_key owned))
              (sym (
                view-result _ (isolates.get_keeps (deployment_key owned)) read
                ∙ view-result _ (isolates.get_bot_keeps request) got))
          ∙ there)

    live-Managed : Managed live owned
    live-Managed =
        let (o, owner_only) =
          d.controller_reference next (desired_deployment c.decimal next) owned own in
        let kept : Managed live (desired_deployment c.decimal next) =
          subst (λ e. Managed live e) desired_next
            (subst (λ e. Managed e (desired_deployment c.decimal bot)) live_next settled.managed) in
        subst (λ e. Managed live e) (sym owner_only) kept

    tells_next : IsToldOf next live
    tells_next =
        subst (λ e. IsToldOf next e) live_next
          (subst (λ x. IsToldOf x settled.live) told_next settled.tells)

  -- If a reconciliation of a bot that is neither deleted nor being deleted finds a deployment, and
  -- ends without error, the next one does nothing but read the bot and the deployment: it writes and
  -- reports nothing, and ends without error. Nothing else has changed the two in between.
  pub reconcile_settles :
      (request : ObjectKey) (bot next : ThreadrBot) (current live owned owned_next : Deployment)
      (w u v w' x y : W)
      → c.get_bot request w ≡ (ok bot, u)
      → bot.spec.desired_state ≢ "deleted"
      → bot.metadata.deletion_timestamp ≡ none
      → c.set_controller_reference bot (desired_deployment c.decimal bot) ≡ ok owned
      → c.get_deployment (deployment_key owned) u ≡ (ok current, v)
      → reconcile c reporter request w ≡ (ok tt, w')
      → c.get_bot request w' ≡ (ok next, x)
      → c.set_controller_reference next (desired_deployment c.decimal next) ≡ ok owned_next
      → c.get_deployment (deployment_key owned_next) x ≡ (ok live, y)
      → reconcile c reporter request w' ≡ (ok tt, y)
  reconcile_settles request bot next current live owned owned_next w u v w' x y got wanted kept own
        read done got_next own_next read_next =
      let settled =
        reconciled-Settled c reporter b status untouched d still isolates request bot current owned
          w u v w' got wanted kept own read done in
      let named = (b.get_ok request bot w u got).1 in
      let told =
        told_next request bot next owned_next live w' x y settled named got_next own_next
          read_next in
      steady_reconcile c reporter request next owned_next live w' x y got_next
        (λ gone. wanted (
          ap (λ s. s.desired_state) (settled.same.1 ∙ ap (λ (t : ThreadrBot). t.spec) told) ∙ gone))
        (ap (λ (t : ThreadrBot). t.metadata.deletion_timestamp) (sym told)
          ∙ ap (λ m. m.deletion_timestamp) (sym settled.same.0)
          ∙ kept)
        own_next read_next
        (live-Managed request bot next owned_next live w' x y settled named got_next own_next
          read_next)
        (tells_next request bot next owned_next live w' x y settled named got_next own_next
          read_next)
