-- ===== src/Operator/Kube.antt =====
-- The Kubernetes objects that the operator reads and writes, with the fields that it names and two
-- that the API server fills in by itself (`default_mode`, `image_pull_policy`). Replica counts are
-- natural numbers, as the CRD's `Minimum=0` and the API server's validation ask.
use threadr.Common.{ℕ, String, Bool, Option, List, String-discrete, slices_discrete}
use threadr.Common.Maps.{StringMap}

pub record ObjectKey : Type 0 where
  pub namespace : String
  pub name : String

unfoldable pub ObjectKey-discrete : Discrete ObjectKey
unfolding String-discrete
ObjectKey-discrete = hlevel String-discrete

-- `owner` is the controller's entry of the owner references.
pub record ObjectMeta : Type 0 where
  pub name : String
  pub namespace : String
  pub labels : StringMap
  pub annotations : StringMap
  pub deletion_timestamp : Option ℕ
  pub owner : Option String

pub record EnvVar : Type 0 where
  pub name : String
  pub value : String

pub data EnvFromSource : Type 0 where
  config_map_ref : String → EnvFromSource
  secret_ref : String → EnvFromSource

pub record VolumeMount : Type 0 where
  pub name : String
  pub mount_path : String
  pub read_only : Bool

pub record Container : Type 0 where
  pub name : String
  pub image : String
  pub env_from : List EnvFromSource
  pub env : List EnvVar
  pub volume_mounts : List VolumeMount
  pub image_pull_policy : Option String

pub record SecretVolumeSource : Type 0 where
  pub secret_name : String
  pub default_mode : Option ℕ

pub record Volume : Type 0 where
  pub name : String
  pub secret : Option SecretVolumeSource

-- An image pull secret is a `LocalObjectReference`.
pub record LocalObjectReference : Type 0 where
  pub name : String

pub record PodSpec : Type 0 where
  pub service_account_name : String
  pub automount_service_account_token : Option Bool
  pub volumes : List Volume
  pub containers : List Container
  pub image_pull_secrets : List LocalObjectReference

pub record PodTemplateSpec : Type 0 where
  pub labels : StringMap
  pub annotations : StringMap
  pub spec : PodSpec

-- `selector` is a pointer to a `LabelSelector`, of which only `MatchLabels` is used.
pub record DeploymentSpec : Type 0 where
  pub replicas : Option ℕ
  pub selector : Option StringMap
  pub template : PodTemplateSpec

-- Of `appsv1.DeploymentCondition`; times are opaque numbers.
pub record DeploymentCondition : Type 0 where
  pub type : String
  pub status : String
  pub last_transition_time : ℕ
  pub reason : String
  pub message : String

pub record DeploymentStatus : Type 0 where
  pub replicas : ℕ
  pub ready_replicas : ℕ
  pub available_replicas : ℕ
  pub conditions : List DeploymentCondition

pub record Deployment : Type 0 where
  pub metadata : ObjectMeta
  pub spec : DeploymentSpec
  pub status : DeploymentStatus

-- `metav1.Condition`.
pub record Condition : Type 0 where
  pub type : String
  pub status : String
  pub observed_generation : ℕ
  pub last_transition_time : ℕ
  pub reason : String
  pub message : String

unfoldable pub EnvFrom-discrete : Discrete (List EnvFromSource)
unfolding String-discrete slices_discrete
EnvFrom-discrete = slices_discrete (hlevel String-discrete)

unfoldable pub Env-discrete : Discrete (List EnvVar)
unfolding String-discrete slices_discrete
Env-discrete = slices_discrete (hlevel String-discrete)

unfoldable pub VolumeMounts-discrete : Discrete (List VolumeMount)
unfolding String-discrete slices_discrete
VolumeMounts-discrete = slices_discrete (hlevel String-discrete)
