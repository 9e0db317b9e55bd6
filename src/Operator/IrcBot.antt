-- ===== src/Operator/IrcBot.antt =====
-- The older IRCBot resource: api/v1alpha1/ircbot_types.go and internal/controller/ircbot_controller.go.
-- `IrcClient` are the calls on its own types, `Client` those on deployments.
pub mod Cleanup
pub mod Running
pub mod Converge
use threadr.Common.{
  ℕ, ◌+◌, ◌%◌, String, Bool, true, false, Option, none, some, List, [], ◌∷◌, length, ltb, leb, ◌==◌,
  not, if◌then◌else◌,
}
use threadr.Common.Exec.{
  is_not_found, Result, ok, err, Exec, pure, raise, lift, attempt, wrap, gets, ◌>>=◌, ◌>>◌,
}
use threadr.Operator.Kube.{ObjectKey, ObjectMeta, Deployment, Container, EnvVar}
use threadr.Operator.Client.{Client, deployment_key}
use threadr.Operator.Reconcile.{is_set}
use Prim.Native.String.{◌++◌ as str_append}

pub record IrcBotSpec : Type 0 where
  pub server : String
  pub port : ℕ  -- int, `Minimum=1`
  pub channels : List String
  pub nick : String
  pub suspended : Bool
  pub history_limit : ℕ  -- int, `Minimum=1`
  pub image_version : String
  pub instance_id : String

-- `active_jobs` is an int32, kept modulo 2 ^ 32.
pub record IrcBotStatus : Type 0 where
  pub connected : Bool
  pub last_message_time : ℕ
  pub active_jobs : ℕ

pub record IrcBot : Type 0 where
  pub metadata : ObjectMeta
  pub spec : IrcBotSpec
  pub status : IrcBotStatus

-- Of `batch.Job`: its name and `Status.Active`.
pub record Job : Type 0 where
  pub metadata : ObjectMeta
  pub active : ℕ

-- `list_jobs` takes the namespace and the value of the label `controller`.
pub record IrcClient (W : Type 0) : Type 0 where
  pub get_bot : ObjectKey → Exec W IrcBot
  pub update_bot_status : IrcBot → Exec W IrcBot
  pub list_jobs : String → String → Exec W (List Job)
  pub delete_job : Job → Exec W Unit
  pub set_controller_reference : IrcBot → Deployment → Result Deployment

-- `strings.Join`.
abbrev pub joined : String → List String → String
joined separator [] = ""
joined separator (s ∷ []) = s
joined separator (s ∷ t ∷ ss) = str_append s (str_append separator (joined separator (t ∷ ss)))

unfoldable pub count_active : List Job → ℕ
count_active [] = 0
count_active (job ∷ jobs) = if ltb 0 job.active then 1 + count_active jobs else count_active jobs

unfoldable pub get_active_jobs : List Job → ℕ
get_active_jobs jobs = count_active jobs % 4294967296

module _ (decimal : ℕ → String) where
  abbrev pub irc_env : IrcBot → List EnvVar
  irc_env bot =
      record { name = "IRC_SERVER"; value = bot.spec.server }
      ∷ record { name = "IRC_PORT"; value = decimal bot.spec.port }
      ∷ record { name = "IRC_CHANNELS"; value = joined "," bot.spec.channels }
      ∷ record { name = "IRC_NICK"; value = bot.spec.nick }
      ∷ []

  abbrev pub irc_container : IrcBot → Container
  irc_container bot = record {
    name = "ircbot";
    image = str_append "ghcr.io/carverauto/threadr:" bot.spec.image_version;
    env_from = [];
    env = irc_env bot;
    volume_mounts = [];
    image_pull_policy = none;
  }

  unfoldable pub irc_deployment : IrcBot → Deployment
  irc_deployment bot = record {
    metadata = record {
      name = bot.metadata.name;
      namespace = bot.metadata.namespace;
      labels = none;
      annotations = none;
      deletion_timestamp = none;
      owner = none;
    };
    spec = record {
      replicas = some 1;
      selector = some (some (("app", bot.metadata.name) ∷ []));
      template = record {
        labels = some (("app", bot.metadata.name) ∷ []);
        annotations = none;
        spec = record {
          service_account_name = "";
          automount_service_account_token = none;
          volumes = [];
          containers = irc_container bot ∷ [];
          image_pull_secrets = record { name = "ghcr-secret" } ∷ [];
        };
      };
    };
    status = record { replicas = 0; ready_replicas = 0; available_replicas = 0; conditions = [] };
  }

module _ {W : Type 0} (irc : IrcClient W) where
  -- The loop over the jobs; `items` is the whole list, whose length the guard reads.
  unfoldable pub cleanup_from : List Job → ℕ → List Job → Exec W (Unit {0})
  cleanup_from items limit [] = pure tt
  cleanup_from items limit (job ∷ jobs) =
      if leb (length items) limit
      then pure tt
      else (irc.delete_job job >> cleanup_from items limit jobs)

  unfoldable pub cleanup_old_jobs : IrcBot → List Job → Exec W (Unit {0})
  cleanup_old_jobs bot jobs = cleanup_from jobs bot.spec.history_limit jobs

  unfoldable pub update_active_jobs : IrcBot → List Job → Exec W IrcBot
  update_active_jobs bot jobs =
      if not (bot.status.active_jobs == get_active_jobs jobs)
      then irc.update_bot_status
          (record bot { status = record bot.status { active_jobs = get_active_jobs jobs } })
      else pure bot

module _ {W : Type 0} (c : Client W) (irc : IrcClient W) where
  unfoldable pub put_deployment : Deployment → Result Deployment → Exec W Deployment
  put_deployment dep (ok found) = c.update_deployment (record found { spec = dep.spec })
  put_deployment dep (err e) =
      if is_not_found e
      then c.create_deployment dep
      else wrap "failed to check for existing Deployment" (raise e)

  unfoldable pub reconcile_bot_deployment : IrcBot → Exec W Deployment
  reconcile_bot_deployment bot = do
    dep ←
        wrap "failed to set controller reference"
          (lift (irc.set_controller_reference bot (irc_deployment c.decimal bot)))
    found ← attempt (c.get_deployment (deployment_key dep))
    put_deployment dep found

  unfoldable pub reconcile_irc_active : IrcBot → Exec W Deployment
  reconcile_irc_active bot = do
    jobs ← irc.list_jobs bot.metadata.namespace bot.metadata.name
    time ← gets c.now
    seen ←
        irc.update_bot_status
          (record bot { status = record bot.status { last_message_time = time } })
    counted ← update_active_jobs irc seen jobs
    cleanup_old_jobs irc counted jobs
    connected ←
        irc.update_bot_status
          (record counted { status = record counted.status { connected = true } })
    reconcile_bot_deployment connected

  unfoldable pub reconcile_irc_found : Result IrcBot → Exec W (Unit {0})
  reconcile_irc_found (err e) = if is_not_found e then pure tt else raise e
  reconcile_irc_found (ok bot) =
      if is_set bot.metadata.deletion_timestamp
      then pure tt
      else if bot.spec.suspended
      then pure tt
      else (reconcile_irc_active bot >> pure tt)

  unfoldable pub reconcile_irc_bot : ObjectKey → Exec W (Unit {0})
  reconcile_irc_bot request = do found ← attempt (irc.get_bot request); reconcile_irc_found found
