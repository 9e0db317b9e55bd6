-- ===== src/Operator/Tests/Samples.antt =====
-- A bot, its deployment, and a cluster that holds the bot.
use threadr.Common.{ℕ, String, none, some, [], ◌∷◌}
use threadr.Common.Maps.{StringMap}
use threadr.Operator.Kube.{ObjectKey, ObjectMeta, Deployment}
use threadr.Operator.Types.{ThreadrBot, ThreadrBotSpec, ThreadrBotStatus, bot_key}
use threadr.Operator.Deployment.Desired.{desired_deployment}
use threadr.Operator.Status.{StatusReporter}
use threadr.Operator.Cluster.{Cluster, empty, client, recorder, set_bot}

abbrev pub metadata : String → String → StringMap → ObjectMeta
metadata namespace name labels = record {
  name = name;
  namespace = namespace;
  labels = labels;
  annotations = none;
  deletion_timestamp = none;
  owner = none;
}

abbrev pub spec : String → ℕ → ThreadrBotSpec
spec state replicas = record {
  control_plane = record {
    tenant_id = "t1";
    tenant_subject = "acme";
    bot_id = "b1";
    generation = 3;
  };
  desired_state = state;
  platform = "irc";
  channels = "#go" ∷ [];
  workload = record {
    deployment_name = "irc-main";
    container_name = "";
    image = "bot:1";
    replicas = replicas;
    env = [];
  };
}

abbrev pub unseen : ThreadrBotStatus
unseen = record {
  phase = "";
  observed_generation = 0;
  deployment_name = "";
  ready_replicas = 0;
  available_replicas = 0;
  conditions = none;
  last_observed_at = 0;
}

abbrev pub bot_in_state : String → ℕ → ThreadrBot
bot_in_state state replicas = record {
  metadata = metadata "bots" "irc-main" (some (("team", "core") ∷ ("app", "mine") ∷ []));
  spec = spec state replicas;
  status = unseen;
}

abbrev pub bot : ThreadrBot
bot = bot_in_state "running" 1

abbrev pub desired : Deployment
desired = desired_deployment client.decimal bot

abbrev pub request : ObjectKey
request = bot_key bot

abbrev pub before : Cluster
before = set_bot request (some bot) empty

abbrev pub control_plane : StatusReporter Cluster
control_plane = some recorder
