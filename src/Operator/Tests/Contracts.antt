-- ===== src/Operator/Tests/Contracts.antt =====
-- A contract, from the control plane to its deployment, in a cluster in memory.
use threadr.Common.{List, [], ◌∷◌}
use threadr.Common.Exec.{ok, Exec}
use threadr.Operator.Kube.{ObjectKey}
use threadr.Operator.ControlPlane.{BotContract}
use threadr.Operator.Status.Quiet.{Quiet}
use threadr.Operator.Sync.{contract_key, sync_once}
use threadr.Operator.Reconcile.{reconcile}
use threadr.Operator.Cluster.{Cluster, client, empty}
use threadr.Operator.Tests.Samples.{bot, control_plane}

abbrev contract : BotContract
contract = record {
  id = "c1";
  tenant_id = "t1";
  bot_id = "b1";
  generation = 3;
  operation = "upsert";
  deployment_name = "irc-main";
  namespace = "bots";
  contract = bot;
}

abbrev hand_out : Exec Cluster (List BotContract)
hand_out w = (ok (contract ∷ []), w)

abbrev synced_world : Cluster
synced_world = (sync_once client hand_out empty).1

abbrev reconciled_world : Cluster
reconciled_world = (reconcile client control_plane (contract_key contract) synced_world).1

-- No bot has this key.
abbrev ghost : ObjectKey
ghost = record { namespace = "bots"; name = "ghost" }
