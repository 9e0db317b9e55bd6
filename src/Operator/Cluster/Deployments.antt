-- ===== src/Operator/Cluster/Deployments.antt =====
-- The calls on deployments of the cluster in memory, as `Server` asks for them.
use threadr.Common.{
  true, Option, none, some, List, [], ◌∷◌, ◌≡◌, refl, sym, ap, ◌∙◌, deep_equal_iff, arith, subst,
}
use threadr.Common.Exec.{Err, Result, ok, err}
use threadr.Operator.Kube.{ObjectKey, ObjectKey-discrete, Deployment, SecretVolumeSource}
use threadr.Operator.Client.{deployment_key}
use threadr.Operator.Client.Server.{DeploymentServer}
use threadr.Operator.Deployment.Drift.Managed.{
  Pointwise, SameVolume, SameContainer, SameSecret, Persists,
}
use threadr.Operator.Sync.{key_eq}
use threadr.Operator.Cluster.{
  Cluster, client, deployment_in, deployment_named, or_not_found, set_deployment,
}

Pointwise-refl :
    {A : Type 0} (R : A → A → Type 0) → ((a : A) → R a a) → (xs : List A) → Pointwise R xs xs
Pointwise-refl R r [] = tt
Pointwise-refl R r (x ∷ xs) = (r x, Pointwise-refl R r xs)

SameSecret-refl : (s : Option SecretVolumeSource) → SameSecret s s
SameSecret-refl none = tt
SameSecret-refl (some s) = refl

Persists-refl : (d : Deployment) → Persists d d
Persists-refl d = record {
  labels = refl;
  annotations = refl;
  replicas = refl;
  selector = refl;
  template_labels = refl;
  template_annotations = refl;
  service_account = refl;
  automount = refl;
  volumes =
      Pointwise-refl SameVolume (λ v. record { name = refl; secret = SameSecret-refl v.secret }) _;
  containers =
      Pointwise-refl SameContainer
        (λ c. record {
          name = refl;
          image = refl;
          env_from = refl;
          env = refl;
          volume_mounts = refl;
        })
        _;
  pull_secrets = refl;
}

key_eq_refl : (k : ObjectKey) → key_eq k k ≡ true
key_eq_refl k = (deep_equal_iff ObjectKey-discrete k k).1 refl

stored_deployment :
    (w : Cluster) (d : Deployment)
    → deployment_in (set_deployment (deployment_key d) (some d) w) (deployment_key d) ≡ some d
stored_deployment w d = rw (key_eq_refl (deployment_key d))

pub read_deployment :
    (k : ObjectKey) (o : Option Deployment) (d : Deployment) (w w' : Cluster)
    → or_not_found (deployment_named k o) w ≡ (ok d, w')
    → (deployment_named k o ≡ some d) × (deployment_key d ≡ k) × (w ≡ w')
read_deployment k none d w w' h = cc
read_deployment k (some o) d w w' h = ground arith

pub written :
    (d live : Deployment) (w w' : Cluster)
    → client.create_deployment d w ≡ (ok live, w')
    → (deployment_in w' (deployment_key d) ≡ some live) × Persists d live
written d live w w' h =
    let same : d ≡ live = cc in
    let next = ap (λ (r : Result Deployment × Cluster). r.1) h in
    (
      ap (λ v. deployment_in v (deployment_key d)) (sym next)
          ∙ stored_deployment w d
          ∙ ap some same,
      subst (Persists d) same (Persists-refl d),
    )

pub missed_deployment :
    (k : ObjectKey) (o : Option Deployment) (e : Err) (w w' : Cluster)
    → or_not_found (deployment_named k o) w ≡ (err e, w')
    → (deployment_named k o ≡ none) × (w ≡ w')
missed_deployment k none e w w' h = ground arith
missed_deployment k (some o) e w w' h = cc

pub erased : (k : ObjectKey) (w : Cluster) → deployment_in (set_deployment k none w) k ≡ none
erased k w = rw (key_eq_refl k)

unfoldable pub deployments_lawful : DeploymentServer client
deployments_lawful = record {
  deployment_at = deployment_in;
  get_ok = λ k d w w' h.
      let (is, key, same) = read_deployment k (w.deployments k) d w w' h in (rw (← same) is, key);
  get_not_found = λ k e w w' h a.
      let (is, same) = missed_deployment k (w.deployments k) e w w' h in rw (← same) is;
  create_ok = written;
  update_ok = written;
  delete_ok = λ d w w' h.
      ap (λ (r : Result (Unit {0}) × Cluster). deployment_in r.1 (deployment_key d)) (sym h)
      ∙ erased (deployment_key d) w;
  status_keeps = λ b. record { at = λ w. refl };
  controller_reference = λ b d owned h. (some b.metadata.name, cc);
}
