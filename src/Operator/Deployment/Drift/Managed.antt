-- ===== src/Operator/Deployment/Drift/Managed.antt =====
-- What it means that a live deployment has the managed fields of the desired one, stated without
-- the tests of the code, and what the API server stores of a request.
use threadr.Common.{Option, none, some, List, [], ◌∷◌, ◌≡◌}
use threadr.Common.Maps.{StringMap, Entries, entries, get, SameMap}
use threadr.Operator.Kube.{
  Container, SecretVolumeSource, Volume, LocalObjectReference, Deployment, DeploymentSpec,
}

-- Two slices of one length with related elements.
module _ {A : Type 0} (R : A → A → Type 0) where
  abbrev pub Pointwise : List A → List A → Type 0
  Pointwise [] [] = Unit
  Pointwise [] (d ∷ ds) = ⊥
  Pointwise (c ∷ cs) [] = ⊥
  Pointwise (c ∷ cs) (d ∷ ds) = R c d × Pointwise cs ds

abbrev pub SameSelector : Option StringMap → Option StringMap → Type 0
SameSelector none none = Unit
SameSelector (some a) (some b) = SameMap a b
SameSelector none (some b) = ⊥
SameSelector (some a) none = ⊥

-- The secret's name counts, its mode does not.
abbrev pub SameSecret : Option SecretVolumeSource → Option SecretVolumeSource → Type 0
SameSecret none none = Unit
SameSecret (some a) (some b) = a.secret_name ≡ b.secret_name
SameSecret none (some b) = ⊥
SameSecret (some a) none = ⊥

pub record SameVolume (a b : Volume) : Type 0 where
  pub name : a.name ≡ b.name
  pub secret : SameSecret a.secret b.secret

-- The pull policy does not count.
pub record SameContainer (a b : Container) : Type 0 where
  pub name : a.name ≡ b.name
  pub image : a.image ≡ b.image
  pub env_from : a.env_from ≡ b.env_from
  pub env : a.env ≡ b.env
  pub volume_mounts : a.volume_mounts ≡ b.volume_mounts

abbrev pub SameName : LocalObjectReference → LocalObjectReference → Type 0
SameName a b = a.name ≡ b.name

-- Each desired entry can be read from the live map, which may hold others.
abbrev pub HasFields : StringMap → Entries → Type 0
HasFields current [] = Unit
HasFields current ((k, v) ∷ es) = (get current k ≡ v) × HasFields current es

pub record HasManaged (want_labels want_annotations : StringMap) (want : DeploymentSpec)
    (current : Deployment) : Type 0 where
  pub replicas : current.spec.replicas ≡ want.replicas
  pub selector : SameSelector current.spec.selector want.selector
  pub template_labels : SameMap current.spec.template.labels want.template.labels
  pub template_annotations : SameMap current.spec.template.annotations want.template.annotations
  pub service_account :
      current.spec.template.spec.service_account_name ≡ want.template.spec.service_account_name
  pub automount :
      current.spec.template.spec.automount_service_account_token
      ≡ want.template.spec.automount_service_account_token
  pub volumes : Pointwise SameVolume current.spec.template.spec.volumes want.template.spec.volumes
  pub containers :
      Pointwise SameContainer current.spec.template.spec.containers want.template.spec.containers
  pub pull_secrets :
      Pointwise SameName current.spec.template.spec.image_pull_secrets
        want.template.spec.image_pull_secrets
  pub labels : HasFields current.metadata.labels (entries want_labels)
  pub annotations : HasFields current.metadata.annotations (entries want_annotations)

-- The owner, the name and the status of the desired deployment do not count.
abbrev pub Managed : Deployment → Deployment → Type 0
Managed current desired =
    HasManaged desired.metadata.labels desired.metadata.annotations desired.spec current

-- The API server stores what a request sets, and fills in only what the request leaves open, such as
-- a secret's mode or a pull policy.
pub record Stores (sent_labels sent_annotations : StringMap) (sent : DeploymentSpec)
    (live : Deployment) : Type 0 where
  pub labels : live.metadata.labels ≡ sent_labels
  pub annotations : live.metadata.annotations ≡ sent_annotations
  pub replicas : live.spec.replicas ≡ sent.replicas
  pub selector : live.spec.selector ≡ sent.selector
  pub template_labels : live.spec.template.labels ≡ sent.template.labels
  pub template_annotations : live.spec.template.annotations ≡ sent.template.annotations
  pub service_account :
      live.spec.template.spec.service_account_name ≡ sent.template.spec.service_account_name
  pub automount :
      live.spec.template.spec.automount_service_account_token
      ≡ sent.template.spec.automount_service_account_token
  pub volumes : Pointwise SameVolume live.spec.template.spec.volumes sent.template.spec.volumes
  pub containers :
      Pointwise SameContainer live.spec.template.spec.containers sent.template.spec.containers
  pub pull_secrets :
      live.spec.template.spec.image_pull_secrets ≡ sent.template.spec.image_pull_secrets

abbrev pub Persists : Deployment → Deployment → Type 0
Persists sent live = Stores sent.metadata.labels sent.metadata.annotations sent.spec live
