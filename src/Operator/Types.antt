-- ===== src/Operator/Types.antt =====
-- api/v1alpha1/threadrbot_types.go: the ThreadrBot resource.
use threadr.Common.{ℕ, String, Option, none, some, List, [], ◌∷◌, if◌then◌else◌, str_eq}
use threadr.Operator.Kube.{ObjectMeta, ObjectKey, Condition}

pub record ThreadrBotControlPlaneRef : Type 0 where
  pub tenant_id : String
  pub tenant_subject : String
  pub bot_id : String
  pub generation : ℕ  -- int64, `Minimum=1`

pub record ThreadrBotEnvVar : Type 0 where
  pub name : String
  pub value : String

pub record ThreadrBotWorkloadSpec : Type 0 where
  pub deployment_name : String
  pub container_name : String
  pub image : String
  pub replicas : ℕ  -- int32, `Minimum=0`
  pub env : List ThreadrBotEnvVar

pub record ThreadrBotSpec : Type 0 where
  pub control_plane : ThreadrBotControlPlaneRef
  pub desired_state : String
  pub platform : String
  pub channels : List String
  pub workload : ThreadrBotWorkloadSpec

-- `conditions` tells the nil slice (`none`) from the empty one, since the code compares them.
pub record ThreadrBotStatus : Type 0 where
  pub phase : String
  pub observed_generation : ℕ
  pub deployment_name : String
  pub ready_replicas : ℕ
  pub available_replicas : ℕ
  pub conditions : Option (List Condition)
  pub last_observed_at : ℕ

pub record ThreadrBot : Type 0 where
  pub metadata : ObjectMeta
  pub spec : ThreadrBotSpec
  pub status : ThreadrBotStatus

-- The default that the resource's definition declares, which the API server fills in for an absent
-- name; encoding/json leaves an empty one out.
abbrev pub defaulted : ThreadrBot → ThreadrBot
defaulted b = record b {
  spec = record b.spec {
    workload = record b.spec.workload {
      container_name =
          if str_eq b.spec.workload.container_name ""
          then "threadr-bot"
          else b.spec.workload.container_name;
    };
  };
}

-- A status as it is read back: encoding/json leaves an empty slice of conditions out, as its tag
-- `omitempty` asks for, so that it comes back as nil.
abbrev pub omitted : Option (List Condition) → Option (List Condition)
omitted none = none
omitted (some []) = none
omitted (some (c ∷ cs)) = some (c ∷ cs)

abbrev pub read_back : ThreadrBot → ThreadrBot
read_back b = record b { status = record b.status { conditions = omitted b.status.conditions } }

-- `client.ObjectKeyFromObject`.
abbrev pub bot_key : ThreadrBot → ObjectKey
bot_key b = record { namespace = b.metadata.namespace; name = b.metadata.name }
