-- ===== src/Operator/Deployment/Drift.antt =====
-- `deploymentUpdateReasons` and the comparisons below it: how a live deployment differs from the
-- one that the bot asks for, in the fields that the controller manages.
pub mod Managed
pub mod Exact
use threadr.Common.{
  ℕ, String, Bool, true, false, Option, none, some, List, [], ◌∷◌, ◌++◌, ◌&&◌, ◌||◌, not, length,
  if◌then◌else◌, str_eq, deep_equal, ◌==◌, String-discrete,
}
use threadr.Common.Maps.{StringMap, Entries, entries, get, lookup, maps_equal}
use threadr.Operator.Kube.{
  EnvFrom-discrete, Env-discrete, VolumeMounts-discrete, Container, SecretVolumeSource, Volume,
  LocalObjectReference, Deployment,
}
use Prim.Native.String.{◌++◌ as str_append}
use native.Mathlib.Decide.{ℕ_discrete}
use mathlib.Core.Option

-- `reflect.DeepEqual` of two pointers to a number, to a flag, and to a label selector.
unfoldable pub replicas_equal : Option ℕ → Option ℕ → Bool
replicas_equal none none = true
replicas_equal (some a) (some b) = a == b
replicas_equal _ _ = false

unfoldable pub flags_equal : Option Bool → Option Bool → Bool
flags_equal none none = true
flags_equal (some true) (some true) = true
flags_equal (some false) (some false) = true
flags_equal _ _ = false

unfoldable pub selectors_equal : Option StringMap → Option StringMap → Bool
unfolding maps_equal
selectors_equal none none = true
selectors_equal (some a) (some b) = maps_equal a b
selectors_equal _ _ = false

-- The loop of `managedFieldsMatch` over the desired entries. An absent key reads as "".
unfoldable pub fields_match : StringMap → Entries → Bool
unfolding lookup
fields_match current [] = true
fields_match current ((key, value) ∷ desired) =
    if not (str_eq (get current key) value) then false else fields_match current desired

unfoldable pub managed_fields_match : StringMap → StringMap → Bool
unfolding fields_match
managed_fields_match current desired = fields_match current (entries desired)

-- A loop over the indices of `desired`, of two slices whose lengths have been compared. The second
-- clause would be an index out of range.
module _ {A : Type 0} (differs : A → A → Bool) where
  unfoldable pub each_match : List A → List A → Bool
  each_match current [] = true
  each_match [] (d ∷ desired) = false
  each_match (c ∷ current) (d ∷ desired) = if differs c d then false else each_match current desired

  unfoldable pub slices_match : List A → List A → Bool
  unfolding each_match
  slices_match current desired =
      if not (length current == length desired) then false else each_match current desired

unfoldable pub container_differs : Container → Container → Bool
unfolding EnvFrom-discrete Env-discrete VolumeMounts-discrete
container_differs current desired =
    not (str_eq current.name desired.name)
    || not (str_eq current.image desired.image)
    || not (deep_equal EnvFrom-discrete current.env_from desired.env_from)
    || not (deep_equal Env-discrete current.env desired.env)
    || not (deep_equal VolumeMounts-discrete current.volume_mounts desired.volume_mounts)

unfoldable pub managed_containers_match : List Container → List Container → Bool
unfolding slices_match container_differs
managed_containers_match = slices_match container_differs

-- The `switch` on the two secrets.
unfoldable pub secret_differs : Option SecretVolumeSource → Option SecretVolumeSource → Bool
secret_differs none none = false
secret_differs none (some desired) = true
secret_differs (some current) none = true
secret_differs (some current) (some desired) = not (str_eq current.secret_name desired.secret_name)

unfoldable pub volume_differs : Volume → Volume → Bool
unfolding secret_differs
volume_differs current desired =
    if not (str_eq current.name desired.name)
    then true
    else secret_differs current.secret desired.secret

unfoldable pub managed_volumes_match : List Volume → List Volume → Bool
unfolding slices_match volume_differs
managed_volumes_match = slices_match volume_differs

abbrev pub reference_differs : LocalObjectReference → LocalObjectReference → Bool
reference_differs current desired = not (str_eq current.name desired.name)

unfoldable pub managed_image_pull_secrets_match :
    List LocalObjectReference → List LocalObjectReference → Bool
unfolding slices_match
managed_image_pull_secrets_match = slices_match reference_differs

-- `if !same { reasons = append(reasons, reason) }`.
unfoldable pub note : Bool → String → List String → List String
note same reason reasons = if not same then reasons ++ reason ∷ [] else reasons

unfoldable pub deployment_update_reasons : Deployment → Deployment → List String
deployment_update_reasons current desired =
    let r0 : List String = [] in
    let r1 = note (replicas_equal current.spec.replicas desired.spec.replicas) "spec.replicas" r0 in
    let r2 =
      note (selectors_equal current.spec.selector desired.spec.selector) "spec.selector" r1 in
    let r3 = note (maps_equal have.labels want.labels) "spec.template.metadata.labels" r2 in
    let r4 =
      note (maps_equal have.annotations want.annotations) "spec.template.metadata.annotations" r3 in
    let r5 =
      note (str_eq have.spec.service_account_name want.spec.service_account_name)
        "spec.template.spec.serviceAccountName" r4 in
    let r6 =
      note
        (flags_equal have.spec.automount_service_account_token
          want.spec.automount_service_account_token)
        "spec.template.spec.automountServiceAccountToken" r5 in
    let r7 =
      note (managed_volumes_match have.spec.volumes want.spec.volumes) "spec.template.spec.volumes"
        r6 in
    let r8 =
      note (managed_containers_match have.spec.containers want.spec.containers)
        "spec.template.spec.containers" r7 in
    let r9 =
      note
        (managed_image_pull_secrets_match have.spec.image_pull_secrets want.spec.image_pull_secrets)
        "spec.template.spec.imagePullSecrets" r8 in
    let r10 =
      note (managed_fields_match current.metadata.labels desired.metadata.labels) "metadata.labels"
        r9 in
    note (managed_fields_match current.metadata.annotations desired.metadata.annotations)
      "metadata.annotations" r10
  where
    open current.spec use {template as have}
    open desired.spec use {template as want}

unfoldable pub deployment_needs_update : Deployment → Deployment → Bool
unfolding deployment_update_reasons
deployment_needs_update current desired =
    not (length (deployment_update_reasons current desired) == 0)

-- `strings.Join(…, ", ")`.
abbrev pub joined_reasons : List String → String
joined_reasons [] = ""
joined_reasons (reason ∷ []) = reason
joined_reasons (reason ∷ next ∷ reasons) =
    str_append reason (str_append ", " (joined_reasons (next ∷ reasons)))

-- The text of a log line.
unfoldable pub format_deployment_update_reasons : Deployment → Deployment → String
format_deployment_update_reasons current desired =
    let reasons = deployment_update_reasons current desired in
    if length reasons == 0 then "" else joined_reasons reasons
