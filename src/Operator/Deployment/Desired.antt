-- ===== src/Operator/Deployment/Desired.antt =====
-- `desiredDeployment`, `containerName` and `mergeStringMaps`.
use threadr.Common.{
  ℕ, String, true, false, none, some, List, [], ◌∷◌, map, if◌then◌else◌, str_eq, not,
}
use threadr.Common.Maps.{StringMap, Entries, entries, insert}
use threadr.Operator.Kube.{
  EnvVar, config_map_ref, secret_ref, VolumeMount, Container, Volume, PodSpec, Deployment,
}
use threadr.Operator.Types.{ThreadrBot, ThreadrBotEnvVar}

abbrev pub bot_workload_service_account_name : String
bot_workload_service_account_name = "threadr-bot"

abbrev pub bot_workload_config_map_name : String
bot_workload_config_map_name = "threadr-worker-config"

abbrev pub bot_workload_env_secret_name : String
bot_workload_env_secret_name = "threadr-control-plane-env"

abbrev pub bot_workload_nats_auth_secret_name : String
bot_workload_nats_auth_secret_name = "threadr-nats-auth"

abbrev pub bot_workload_nats_ca_volume_name : String
bot_workload_nats_ca_volume_name = "nats-ca"

abbrev pub bot_workload_nats_client_volume_name : String
bot_workload_nats_client_volume_name = "nats-client"

abbrev pub bot_workload_nats_ca_secret_name : String
bot_workload_nats_ca_secret_name = "threadr-nats-ca"

abbrev pub bot_workload_nats_client_secret_name : String
bot_workload_nats_client_secret_name = "threadr-nats-worker-client"

-- The inner loop writes each entry of one map. Go's order of iteration is open, and its keys are
-- distinct; starting at the far end lets a first entry win, as in `lookup`.
unfoldable pub put_all : Entries → Entries → Entries
unfolding insert
put_all merged [] = merged
put_all merged ((k, v) ∷ es) = insert k v (put_all merged es)

-- The outer loop goes through the maps in order.
unfoldable pub merge_from : Entries → List StringMap → Entries
unfolding put_all
merge_from merged [] = merged
merge_from merged (current ∷ maps) = merge_from (put_all merged (entries current)) maps

unfoldable pub merge_string_maps : List StringMap → StringMap
unfolding merge_from
merge_string_maps maps = some (merge_from [] maps)

unfoldable pub container_name : ThreadrBot → String
container_name bot =
    if not (str_eq bot.spec.workload.container_name "")
    then bot.spec.workload.container_name
    else "threadr-bot"

abbrev pub controller_labels : ThreadrBot → Entries
controller_labels bot =
    ("app.kubernetes.io/name", "threadr-bot")
    ∷ ("app.kubernetes.io/managed-by", "threadrbot-controller")
    ∷ ("threadr.io/bot-id", bot.spec.control_plane.bot_id)
    ∷ ("threadr.io/tenant-id", bot.spec.control_plane.tenant_id)
    ∷ ("threadr.io/tenant-subject", bot.spec.control_plane.tenant_subject)
    ∷ []

unfoldable pub workload_labels : ThreadrBot → StringMap
workload_labels bot = merge_string_maps (bot.metadata.labels ∷ some (controller_labels bot) ∷ [])

abbrev pub env_var : ThreadrBotEnvVar → EnvVar
env_var entry = record { name = entry.name; value = entry.value }

abbrev pub workload_env : ThreadrBot → List EnvVar
workload_env bot =
    record { name = "THREADR_BROADWAY_ENABLED"; value = "false" }
    ∷ map env_var bot.spec.workload.env

abbrev pub secret_volume : String → String → Volume
secret_volume volume secret = record {
  name = volume;
  secret = some (record { secret_name = secret; default_mode = none });
}

abbrev pub workload_volumes : List Volume
workload_volumes =
    secret_volume bot_workload_nats_ca_volume_name bot_workload_nats_ca_secret_name
    ∷ secret_volume bot_workload_nats_client_volume_name bot_workload_nats_client_secret_name
    ∷ []

abbrev pub workload_mounts : List VolumeMount
workload_mounts =
    record {
      name = bot_workload_nats_ca_volume_name;
      mount_path = "/etc/threadr/nats/ca";
      read_only = true;
    }
    ∷ record {
      name = bot_workload_nats_client_volume_name;
      mount_path = "/etc/threadr/nats/client";
      read_only = true;
    }
    ∷ []

unfoldable pub workload_container : ThreadrBot → Container
unfolding container_name
workload_container bot = record {
  name = container_name bot;
  image = bot.spec.workload.image;
  env_from =
      config_map_ref bot_workload_config_map_name
      ∷ secret_ref bot_workload_env_secret_name
      ∷ secret_ref bot_workload_nats_auth_secret_name
      ∷ [];
  env = workload_env bot;
  volume_mounts = workload_mounts;
  image_pull_policy = none;
}

abbrev pub workload_pod : ThreadrBot → PodSpec
workload_pod bot = record {
  service_account_name = bot_workload_service_account_name;
  automount_service_account_token = some false;
  volumes = workload_volumes;
  containers = workload_container bot ∷ [];
  image_pull_secrets = record { name = "ghcr-io-cred" } ∷ [];
}

-- `decimal` is `fmt.Sprintf("%d", …)`. A new object has the zero status.
module _ (decimal : ℕ → String) where
  unfoldable pub desired_deployment : ThreadrBot → Deployment
  desired_deployment bot = record {
    metadata = record {
      name = bot.spec.workload.deployment_name;
      namespace = bot.metadata.namespace;
      labels = workload_labels bot;
      annotations =
          some (
            ("threadr.io/control-plane-generation", decimal bot.spec.control_plane.generation)
            ∷ []);
      deletion_timestamp = none;
      owner = none;
    };
    spec = record {
      replicas = some bot.spec.workload.replicas;
      selector = some (some (("threadr.io/bot-id", bot.spec.control_plane.bot_id) ∷ []));
      template = record {
        labels = workload_labels bot;
        annotations = none;
        spec = workload_pod bot;
      };
    };
    status = record { replicas = 0; ready_replicas = 0; available_replicas = 0; conditions = [] };
  }
