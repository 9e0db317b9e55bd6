-- ===== src/Operator/Deployment/Drift/Exact.antt =====
-- The comparison of a live deployment, against what its fields must be.
use threadr.Common.{
  ℕ, String, Bool, true, false, Option, none, some, List, [], ◌∷◌, length, ◌≡◌, refl, ◌↔◌,
  str_eq_iff, Bool-cases, inl, inr, deep_equal_iff, ==_iff, ◌==◌, arith,
}
use threadr.Common.Maps.{StringMap, Entries, entries, get, maps_equal_iff}
use threadr.Operator.Kube.{
  EnvFrom-discrete, Env-discrete, VolumeMounts-discrete, Container, SecretVolumeSource, Volume,
  LocalObjectReference, Deployment,
}
use threadr.Operator.Deployment.Drift.{
  replicas_equal, flags_equal, selectors_equal, fields_match, managed_fields_match, each_match,
  slices_match, container_differs, managed_containers_match, secret_differs, volume_differs,
  managed_volumes_match, reference_differs, managed_image_pull_secrets_match, note,
  deployment_update_reasons,
}
use threadr.Operator.Deployment.Drift.Managed.{
  Pointwise, SameSelector, SameSecret, SameVolume, SameContainer, SameName, HasFields, Managed,
}

replicas_equal_iff : (a b : Option ℕ) → (replicas_equal a b ≡ true) ↔ (a ≡ b)
unfolding replicas_equal
replicas_equal_iff a b = ground arith

flags_equal_iff : (a b : Option Bool) → (flags_equal a b ≡ true) ↔ (a ≡ b)
unfolding flags_equal
flags_equal_iff a b = ground arith

selectors_equal_iff : (a b : Option StringMap) → (selectors_equal a b ≡ true) ↔ SameSelector a b
unfolding selectors_equal
selectors_equal_iff none none = ((λ _. tt), (λ _. refl))
selectors_equal_iff (some a) (some b) = maps_equal_iff a b
selectors_equal_iff none (some b) = ((λ h. cc), (λ h. absurd h))
selectors_equal_iff (some a) none = ((λ h. cc), (λ h. absurd h))

fields_match_iff :
    (current : StringMap) (es : Entries) → (fields_match current es ≡ true) ↔ HasFields current es
unfolding fields_match
fields_match_iff current [] = ((λ _. tt), (λ _. refl))
fields_match_iff current ((k, v) ∷ es) =
    ground (arith, str_eq_iff (get current k) v, fields_match_iff current es)

module _ {A : Type 0} (R : A → A → Type 0) (differs : A → A → Bool)
    (same : (c d : A) → (differs c d ≡ false) ↔ R c d) where
  each_match_iff :
      (cs ds : List A)
      → length cs ≡ length ds
      → (each_match differs cs ds ≡ true) ↔ Pointwise R cs ds
  unfolding each_match
  each_match_iff [] [] e = ((λ _. tt), (λ _. refl))
  each_match_iff [] (d ∷ ds) e = absurd (omega arith)
  each_match_iff (c ∷ cs) [] e = absurd (omega arith)
  each_match_iff (c ∷ cs) (d ∷ ds) e = ground (arith, same c d, each_match_iff cs ds (omega arith))

  length_of_Pointwise : (cs ds : List A) → Pointwise R cs ds → length cs ≡ length ds
  length_of_Pointwise [] [] p = refl
  length_of_Pointwise [] (d ∷ ds) p = absurd p
  length_of_Pointwise (c ∷ cs) [] p = absurd p
  length_of_Pointwise (c ∷ cs) (d ∷ ds) p = omega (arith, length_of_Pointwise cs ds p.1)

  slices_match_iff : (cs ds : List A) → (slices_match differs cs ds ≡ true) ↔ Pointwise R cs ds
  unfolding slices_match
  slices_match_iff cs ds = elim (Bool-cases (length cs == length ds)) [
    | inl e ↦ rw e (each_match_iff cs ds ((==_iff _ _).0 e))
    | inr n ↦ rw n ((λ h. cc), (λ p. cc (n, (==_iff _ _).1 (length_of_Pointwise cs ds p))))
  ]

secret_differs_iff :
    (a b : Option SecretVolumeSource) → (secret_differs a b ≡ false) ↔ SameSecret a b
unfolding secret_differs
secret_differs_iff none none = ((λ _. tt), (λ _. refl))
secret_differs_iff (some a) (some b) = ground (arith, str_eq_iff a.secret_name b.secret_name)
secret_differs_iff none (some b) = ((λ h. cc), (λ h. absurd h))
secret_differs_iff (some a) none = ((λ h. cc), (λ h. absurd h))

volume_differs_iff : (a b : Volume) → (volume_differs a b ≡ false) ↔ SameVolume a b
unfolding volume_differs
volume_differs_iff a b =
    ground (arith, str_eq_iff a.name b.name, secret_differs_iff a.secret b.secret)

container_differs_iff : (a b : Container) → (container_differs a b ≡ false) ↔ SameContainer a b
unfolding container_differs
container_differs_iff a b = ground (
  arith,
  str_eq_iff a.name b.name,
  str_eq_iff a.image b.image,
  deep_equal_iff EnvFrom-discrete a.env_from b.env_from,
  deep_equal_iff Env-discrete a.env b.env,
  deep_equal_iff VolumeMounts-discrete a.volume_mounts b.volume_mounts,
)

reference_differs_iff :
    (a b : LocalObjectReference) → (reference_differs a b ≡ false) ↔ SameName a b
reference_differs_iff a b = ground (arith, str_eq_iff a.name b.name)

managed_fields_match_iff :
    (current desired : StringMap)
    → (managed_fields_match current desired ≡ true) ↔ HasFields current (entries desired)
unfolding managed_fields_match
managed_fields_match_iff current desired = fields_match_iff current (entries desired)

volumes_match_iff :
    (a b : List Volume) → (managed_volumes_match a b ≡ true) ↔ Pointwise SameVolume a b
unfolding managed_volumes_match
volumes_match_iff = slices_match_iff SameVolume volume_differs volume_differs_iff

containers_match_iff :
    (a b : List Container) → (managed_containers_match a b ≡ true) ↔ Pointwise SameContainer a b
unfolding managed_containers_match
containers_match_iff = slices_match_iff SameContainer container_differs container_differs_iff

pull_secrets_match_iff :
    (a b : List LocalObjectReference)
    → (managed_image_pull_secrets_match a b ≡ true) ↔ Pointwise SameName a b
unfolding managed_image_pull_secrets_match
pull_secrets_match_iff = slices_match_iff SameName reference_differs reference_differs_iff

note-nil :
    (same : Bool) (reason : String) (reasons : List String)
    → note same reason reasons ≡ []
    → (same ≡ true) × (reasons ≡ [])
unfolding note
note-nil true reason reasons h = (refl, h)
note-nil false reason [] h = cc
note-nil false reason (r ∷ rs) h = cc

note-true : (reason : String) (reasons : List String) → note true reason reasons ≡ reasons
unfolding note
note-true reason reasons = refl

-- The live deployment needs no update exactly when it has every managed field of the desired one.
pub update_reasons_iff :
    (current desired : Deployment)
    → (deployment_update_reasons current desired ≡ []) ↔ Managed current desired
unfolding deployment_update_reasons
update_reasons_iff current desired = (
  (λ h.
      let (annotations, h10) = note-nil _ _ _ h in
      let (labels, h9) = note-nil _ _ _ h10 in
      let (pull_secrets, h8) = note-nil _ _ _ h9 in
      let (containers, h7) = note-nil _ _ _ h8 in
      let (volumes, h6) = note-nil _ _ _ h7 in
      let (automount, h5) = note-nil _ _ _ h6 in
      let (service_account, h4) = note-nil _ _ _ h5 in
      let (template_annotations, h3) = note-nil _ _ _ h4 in
      let (template_labels, h2) = note-nil _ _ _ h3 in
      let (selector, h1) = note-nil _ _ _ h2 in
      let (replicas, h0) = note-nil _ _ _ h1 in
      record {
        replicas = (replicas_equal_iff _ _).0 replicas;
        selector = (selectors_equal_iff _ _).0 selector;
        template_labels = (maps_equal_iff _ _).0 template_labels;
        template_annotations = (maps_equal_iff _ _).0 template_annotations;
        service_account = (str_eq_iff _ _).0 service_account;
        automount = (flags_equal_iff _ _).0 automount;
        volumes = (volumes_match_iff _ _).0 volumes;
        containers = (containers_match_iff _ _).0 containers;
        pull_secrets = (pull_secrets_match_iff _ _).0 pull_secrets;
        labels = (managed_fields_match_iff _ _).0 labels;
        annotations = (managed_fields_match_iff _ _).0 annotations;
      }),
  (λ m.
      rw
        (
          (replicas_equal_iff _ _).1 m.replicas,
          (selectors_equal_iff _ _).1 m.selector,
          (maps_equal_iff _ _).1 m.template_labels,
          (maps_equal_iff _ _).1 m.template_annotations,
          (str_eq_iff _ _).1 m.service_account,
          (flags_equal_iff _ _).1 m.automount,
          (volumes_match_iff _ _).1 m.volumes,
          (containers_match_iff _ _).1 m.containers,
          (pull_secrets_match_iff _ _).1 m.pull_secrets,
          (managed_fields_match_iff current.metadata.labels desired.metadata.labels).1 m.labels,
          (managed_fields_match_iff current.metadata.annotations desired.metadata.annotations).1
              m.annotations,
        )
        (simp note-true)),
)
