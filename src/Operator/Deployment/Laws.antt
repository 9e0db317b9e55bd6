-- ===== src/Operator/Deployment/Laws.antt =====
-- What the desired deployment is made of, for every bot, its labels set by anyone included.
use threadr.Common.{
  ℕ, String, none, some, List, [], ◌∷◌, ◌≡◌, refl, sym, ◌∙◌, ◌≢◌, ◌⊎◌, inl, inr, All, str_eq,
  str_eq_iff, arith, if◌then◌else◌, Bool-cases,
}
use threadr.Common.Maps.{
  StringMap, Entries, entries, lookup, find, or_else, get, IsDistinct, SameMap, insert-IsDistinct,
  lookup-insert,
}
use threadr.Operator.Kube.{VolumeMount, Volume, Deployment, Container}
use threadr.Operator.Types.{ThreadrBot, ThreadrBotSpec, defaulted}
use threadr.Operator.Deployment.Desired.{
  put_all, merge_string_maps, workload_labels, controller_labels, desired_deployment,
  workload_container, container_name,
}
use threadr.Operator.Deployment.Drift.Managed.{HasFields, Managed, Persists}

pub lookup-put_all :
    (merged es : Entries) (k : String)
    → lookup k (put_all merged es) ≡ or_else (lookup k es) (lookup k merged)
unfolding put_all
lookup-put_all merged [] k = unfold lookup in refl
lookup-put_all merged ((j, v) ∷ es) k =
    ground (arith, lookup-insert j k v (put_all merged es), lookup-put_all merged es k, lookup-head)
  where
    lookup-head : lookup k ((j, v) ∷ es) ≡ (if str_eq j k then some v else lookup k es)
    lookup-head = unfold lookup in refl

put_all-IsDistinct : (merged es : Entries) → IsDistinct merged → IsDistinct (put_all merged es)
unfolding put_all
put_all-IsDistinct merged [] d = d
put_all-IsDistinct merged ((j, v) ∷ es) d =
    insert-IsDistinct j v (put_all merged es) (put_all-IsDistinct merged es d)

-- Of two maps merged, the second wins.
pub find-merge :
    (a b : StringMap) (k : String)
    → find k (merge_string_maps (a ∷ b ∷ [])) ≡ or_else (find k b) (find k a)
unfolding merge_string_maps
find-merge a b k = ground (
  arith,
  lookup-put_all (put_all [] (entries a)) (entries b) k,
  lookup-put_all [] (entries a) k,
  lookup-nil,
)
  where
    lookup-nil : lookup k [] ≡ none
    lookup-nil = unfold lookup in refl

HasFields-of_lookup :
    (m : StringMap) (es : Entries)
    → IsDistinct es
    → ((k v : String) → lookup k es ≡ some v → get m k ≡ v)
    → HasFields m es
HasFields-of_lookup m [] d h = tt
HasFields-of_lookup m ((j, v) ∷ es) d h = (
  h j v (unfold lookup in ground (arith, str_eq_iff j j)),
  HasFields-of_lookup m es d.1
      (λ k w p. h k w (unfold lookup in ground (arith, str_eq_iff j k, d.0))),
)

HasFields-self : (m : StringMap) → IsDistinct (entries m) → HasFields m (entries m)
HasFields-self m d = HasFields-of_lookup m (entries m) d (λ k v p. rw p)

SameMap-refl : (m : StringMap) → SameMap m m
SameMap-refl none = tt
SameMap-refl (some es) = λ k. refl

-- The controller's own labels win over the bot's, and every other label of the bot is kept.
pub find-workload_labels :
    (bot : ThreadrBot) (k : String)
    → find k (workload_labels bot)
      ≡ or_else (lookup k (controller_labels bot)) (find k bot.metadata.labels)
unfolding workload_labels
find-workload_labels bot k = find-merge bot.metadata.labels (some (controller_labels bot)) k

workload_labels-IsDistinct : (bot : ThreadrBot) → IsDistinct (entries (workload_labels bot))
unfolding workload_labels merge_string_maps
workload_labels-IsDistinct bot =
    put_all-IsDistinct _ (controller_labels bot)
      (put_all-IsDistinct [] (entries bot.metadata.labels) tt)

-- A selector picks the pods whose labels hold all of its entries.
abbrev pub Selects : Entries → StringMap → Type 0
Selects selector labels = All (λ (e : String × String). find e.0 labels ≡ some e.1) selector

abbrev pub match_labels : Deployment → Entries
match_labels d = elim d.spec.selector [ none ↦ [] | some m ↦ entries m ]

abbrev pub Declares : List Volume → VolumeMount → Type 0
Declares [] mount = ⊥
Declares (v ∷ vs) mount = (v.name ≡ mount.name) ⊎ Declares vs mount

-- What the API server asks of a deployment: its selector is there and picks the pods of its own
-- template, and each container mounts only volumes that the pod declares.
pub record IsWellFormed (d : Deployment) : Type 0 where
  pub selective : match_labels d ≢ []
  pub selects : Selects (match_labels d) d.spec.template.labels
  pub mounts :
      All
        (λ (c : Container). All (Declares d.spec.template.spec.volumes) c.volume_mounts)
        d.spec.template.spec.containers

module _ (decimal : ℕ → String) (bot : ThreadrBot) where
  -- The desired deployment is well formed for every bot, whatever labels the bot carries.
  pub desired-IsWellFormed : IsWellFormed (desired_deployment decimal bot)
  unfolding desired_deployment workload_container
  desired-IsWellFormed = record {
    selective = cc;
    selects = (rw find-workload_labels (unfold lookup in refl), tt);
    mounts = ((inl refl, (inr (inl refl), tt)), tt);
  }

  -- What the API server has stored of the desired deployment needs no update.
  pub persisted-Managed :
      (live : Deployment)
      → Persists (desired_deployment decimal bot) live
      → Managed live (desired_deployment decimal bot)
  unfolding desired_deployment
  persisted-Managed live p = record {
    replicas = p.replicas;
    selector = rw p.selector (λ k. refl);
    template_labels = rw p.template_labels (SameMap-refl (workload_labels bot));
    template_annotations = rw p.template_annotations tt;
    service_account = p.service_account;
    automount = p.automount;
    volumes = p.volumes;
    containers = p.containers;
    pull_secrets = rw p.pull_secrets (refl, tt);
    labels = rw p.labels (HasFields-self (workload_labels bot) (workload_labels-IsDistinct bot));
    annotations = (rw p.annotations (unfold lookup in refl), tt);
  }

-- What the deployment of a bot depends on.
abbrev seen : ThreadrBot → StringMap → String → ThreadrBotSpec → ThreadrBot
seen b labels namespace spec = record {
  metadata = record b.metadata { labels = labels; namespace = namespace };
  spec = spec;
  status = b.status;
}

desired_deployment-seen :
    (decimal : ℕ → String) (a b : ThreadrBot)
    → desired_deployment decimal b
      ≡ desired_deployment decimal (seen a b.metadata.labels b.metadata.namespace b.spec)
unfolding desired_deployment workload_labels workload_container container_name
desired_deployment-seen decimal a b = refl

pub desired_deployment_same :
    (decimal : ℕ → String) (a b : ThreadrBot)
    → a.metadata.labels ≡ b.metadata.labels
    → a.metadata.namespace ≡ b.metadata.namespace
    → a.spec ≡ b.spec
    → desired_deployment decimal a ≡ desired_deployment decimal b
desired_deployment_same decimal a b labels namespace spec =
    desired_deployment-seen decimal a a
    ∙ (λ i. desired_deployment decimal (seen a (labels i) (namespace i) (spec i)))
    ∙ sym (desired_deployment-seen decimal a b)

-- The default of the resource's definition is the name that the controller takes for an empty one.
pub desired_deployment-defaulted :
    (decimal : ℕ → String) (b : ThreadrBot)
    → desired_deployment decimal (defaulted b) ≡ desired_deployment decimal b
unfolding desired_deployment workload_labels workload_container container_name
desired_deployment-defaulted decimal b =
    elim (Bool-cases (str_eq b.spec.workload.container_name "")) [
      | inl absent ↦ rw absent refl
      | inr given ↦ rw (given, given) refl
    ]
