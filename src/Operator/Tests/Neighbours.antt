-- ===== src/Operator/Tests/Neighbours.antt =====
-- A reconciliation in a cluster that holds another deployment.
use threadr.Common.{String-discrete, some, ◌≡◌, ◌≢◌, refl, sym, ap, ◌∙◌, str_ne, subst}
use threadr.Common.Exec.{Result, ok, err}
use threadr.Operator.Kube.{ObjectKey, ObjectKey-discrete}
use threadr.Operator.Types.{ThreadrBot}
use threadr.Operator.Client.{deployment_key}
use threadr.Operator.Deployment.Desired.{desired_deployment}
use threadr.Operator.Status.Quiet.{Quiet}
use threadr.Operator.Sync.{is_expected}
use threadr.Operator.Reconcile.{reconcile}
use threadr.Operator.Reconcile.Isolated.{reconcile_leaves_others}
use threadr.Operator.Cluster.{Cluster, client, deployment_in, set_deployment}
use threadr.Operator.Cluster.Deployments.{deployments_lawful}
use threadr.Operator.Cluster.Isolated.{deployments_isolated}
use threadr.Operator.Tests.Samples.{bot, desired, request, before, control_plane}

abbrev neighbour : ObjectKey
neighbour = record { namespace = "bots"; name = "other" }

abbrev shared : Cluster
shared = set_deployment neighbour (some desired) before

quiet : Quiet deployments_lawful.deployment_at control_plane
unfolding deployments_lawful
quiet = λ r. record { at = λ w. refl }

read : client.get_bot request shared ≡ (ok bot, shared)
unfolding is_expected ObjectKey-discrete String-discrete
read = refl

bot_apart : deployment_key (desired_deployment client.decimal bot) ≢ neighbour
unfolding desired_deployment
bot_apart same = str_ne "irc-main" "other" refl (ap (λ (k : ObjectKey). k.name) same)

abbrev bot_of : Result ThreadrBot → ThreadrBot
bot_of (ok b) = b
bot_of (err e) = bot

apart :
    (b : ThreadrBot) (v : Cluster)
    → client.get_bot request shared ≡ (ok b, v)
    → deployment_key (desired_deployment client.decimal b) ≢ neighbour
apart b v h =
    subst (λ (a : ThreadrBot). deployment_key (desired_deployment client.decimal a) ≢ neighbour)
      (ap (λ (r : Result ThreadrBot × Cluster). bot_of r.0) (sym read ∙ h)) bot_apart

reconcile_leaves_others_example :
    deployment_in (reconcile client control_plane request shared).1 neighbour
    ≡ deployment_in shared neighbour
unfolding deployments_lawful
reconcile_leaves_others_example =
    reconcile_leaves_others client control_plane deployments_lawful quiet deployments_isolated
      request neighbour shared apart
