-- ===== src/Operator/Cluster.antt =====
-- A cluster in memory that answers the operator's calls, on which the tests run.
pub mod Deployments
pub mod Bots
pub mod Isolated
use threadr.Common.{
  ℕ, ◌+◌, String, Bool, true, false, Option, none, some, List, [], ◌∷◌, ◌++◌, ◌&&◌, if◌then◌else◌,
  deep_equal,
}
use threadr.Common.Maps.{find, Found-discrete}
use threadr.Common.Exec.{Result, ok, err, not_found, Exec}
use threadr.Operator.Kube.{ObjectKey, Deployment}
use threadr.Operator.Types.{ThreadrBot, bot_key, defaulted, read_back}
use threadr.Operator.ControlPlane.{StatusReport}
use threadr.Operator.Client.{Client, deployment_key}
use threadr.Operator.Sync.{key_eq, is_expected}

pub record Cluster : Type 0 where
  pub deployments : ObjectKey → Option Deployment
  pub bots : ObjectKey → Option ThreadrBot
  pub names : List ObjectKey
  pub reports : List StatusReport
  pub clock : ℕ

abbrev pub empty : Cluster
empty = record { deployments = λ k. none; bots = λ k. none; names = []; reports = []; clock = 7 }

-- What is stored under a key has that key.
abbrev pub deployment_named : ObjectKey → Option Deployment → Option Deployment
deployment_named k none = none
deployment_named k (some d) =
    some (record d { metadata = record d.metadata { namespace = k.namespace; name = k.name } })

abbrev pub bot_named : ObjectKey → Option ThreadrBot → Option ThreadrBot
bot_named k none = none
bot_named k (some b) =
    some (record b { metadata = record b.metadata { namespace = k.namespace; name = k.name } })

abbrev pub deployment_in : Cluster → ObjectKey → Option Deployment
deployment_in w k = deployment_named k (w.deployments k)

abbrev pub bot_in : Cluster → ObjectKey → Option ThreadrBot
bot_in w k = if is_expected w.names k then bot_named k (w.bots k) else none

abbrev pub or_not_found : {A : Type 0} → Option A → Exec Cluster A
or_not_found none w = (err not_found, w)
or_not_found (some a) w = (ok a, w)

abbrev pub set_deployment : ObjectKey → Option Deployment → Cluster → Cluster
set_deployment k d w = record w { deployments = λ j. if key_eq k j then d else w.deployments j }

abbrev pub set_bot : ObjectKey → Option ThreadrBot → Cluster → Cluster
set_bot k b w = record w { bots = λ j. if key_eq k j then b else w.bots j; names = k ∷ w.names }

abbrev pub labelled : String → String → Option ThreadrBot → List ThreadrBot → List ThreadrBot
labelled label value none bs = bs
labelled label value (some b) bs =
    if deep_equal Found-discrete (find label b.metadata.labels) (some value) then b ∷ bs else bs

abbrev pub list_in : String → String → List ObjectKey → Cluster → List ThreadrBot
list_in label value [] w = []
list_in label value (k ∷ ks) w = labelled label value (bot_in w k) (list_in label value ks w)

abbrev pub client : Client Cluster
client = record {
  get_bot = λ k w. or_not_found (bot_in w k) w;
  list_bots = λ label value w. (ok (list_in label value w.names w), w);
  create_bot = λ b w. (ok (defaulted b), set_bot (bot_key b) (some (defaulted b)) w);
  update_bot = λ b w. (ok (defaulted b), set_bot (bot_key b) (some (defaulted b)) w);
  delete_bot = λ b w. (ok tt, set_bot (bot_key b) none w);
  update_bot_status = λ b w. (ok b, set_bot (bot_key b) (some (read_back b)) w);
  get_deployment = λ k w. or_not_found (deployment_in w k) w;
  create_deployment = λ d w. (ok d, set_deployment (deployment_key d) (some d) w);
  update_deployment = λ d w. (ok d, set_deployment (deployment_key d) (some d) w);
  delete_deployment = λ d w. (ok tt, set_deployment (deployment_key d) none w);
  get_namespace = λ n w. (ok tt, w);
  create_namespace = λ n w. (ok tt, w);
  set_controller_reference =
      λ b d. ok (record d { metadata = record d.metadata { owner = some b.metadata.name } });
  now = λ w. w.clock;
  decimal = λ n. "1";
}

-- A control plane that keeps what it is told.
abbrev pub recorder : StatusReport → Exec Cluster (Unit {0})
recorder report w = (ok tt, record w { reports = w.reports ++ report ∷ [] })
