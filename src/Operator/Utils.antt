-- ===== src/Operator/Utils.antt =====
-- k8s/operators/ircbot-operator/test/utils/utils.go: how the end-to-end tests run kubectl and kind.
-- The operating system is a record of calls. Texts that are taken apart are code points.
use threadr.Common.{ℕ, String, Option, none, some, List, [], ◌∷◌, ◌++◌}
use threadr.Common.Texts.{Text, split_on, remove_all}
use threadr.Common.Exec.{Result, ok, err, Exec, pure, gets, attempt, wrap, ◌>>=◌, ◌>>◌}

-- `exec.Cmd`.
pub record Cmd : Type 0 where
  pub args : List String
  pub dir : Text
  pub env : List String

-- What `combined_output` has read beside an error goes into the text of that error only.
pub record System (W : Type 0) : Type 0 where
  pub getwd : Exec W Text
  pub chdir : Text → Exec W (Unit {0})
  pub environ : W → List String
  pub lookup_env : String → W → Option String
  pub combined_output : Cmd → Exec W String

-- "/test/e2e".
abbrev pub e2e_directory : Text
e2e_directory = 47 ∷ 116 ∷ 101 ∷ 115 ∷ 116 ∷ 47 ∷ 101 ∷ 50 ∷ 101 ∷ []

-- Where `strings.Split(output, "\n")` cuts.
abbrev newline : ℕ
newline = 10

abbrev pub dir_or_empty : Result Text → Text
dir_or_empty (ok dir) = dir
dir_or_empty (err e) = []

abbrev pub cluster_or_kind : Option String → String
cluster_or_kind none = "kind"
cluster_or_kind (some v) = v

abbrev pub non_empty : List Text → List Text
non_empty [] = []
non_empty ([] ∷ elements) = non_empty elements
non_empty ((r ∷ rs) ∷ elements) = (r ∷ rs) ∷ non_empty elements

unfoldable pub get_non_empty_lines : Text → List Text
get_non_empty_lines output = non_empty (split_on newline output)

abbrev pub prometheus_operator_url : String
prometheus_operator_url =
    "https://github.com/prometheus-operator/prometheus-operator/releases/download/v0.68.0/bundle.yaml"

abbrev pub certmanager_url : String
certmanager_url =
    "https://github.com/jetstack/cert-manager/releases/download/v1.5.3/cert-manager.yaml"

module _ {W : Type 0} (system : System W) where
  unfoldable pub get_project_dir : Exec W Text
  get_project_dir = system.getwd >>= λ wd. pure (remove_all e2e_directory wd)

  -- Neither the directory nor the change to it has to be there: with an error `os.Getwd` answers "".
  unfoldable pub run_cmd : List String → Exec W String
  run_cmd args = do
    found ← attempt get_project_dir
    let dir = dir_or_empty found
    attempt (system.chdir dir)
    environ ← gets system.environ
    wrap "failed with error" (
        system.combined_output
          (record { args = args; dir = dir; env = environ ++ "GO111MODULE=on" ∷ [] }))

  unfoldable pub install_prometheus_operator : Exec W (Unit {0})
  install_prometheus_operator =
      run_cmd ("kubectl" ∷ "create" ∷ "-f" ∷ prometheus_operator_url ∷ []) >> pure tt

  -- An error is a warning.
  unfoldable pub uninstall_prometheus_operator : Exec W (Unit {0})
  uninstall_prometheus_operator =
      attempt (run_cmd ("kubectl" ∷ "delete" ∷ "-f" ∷ prometheus_operator_url ∷ [])) >> pure tt

  unfoldable pub uninstall_cert_manager : Exec W (Unit {0})
  uninstall_cert_manager =
      attempt (run_cmd ("kubectl" ∷ "delete" ∷ "-f" ∷ certmanager_url ∷ [])) >> pure tt

  unfoldable pub install_cert_manager : Exec W (Unit {0})
  install_cert_manager =
      run_cmd ("kubectl" ∷ "apply" ∷ "-f" ∷ certmanager_url ∷ [])
      >> run_cmd (
          "kubectl" ∷ "wait" ∷ "deployment.apps/cert-manager-webhook" ∷ "--for"
          ∷ "condition=Available" ∷ "--namespace" ∷ "cert-manager" ∷ "--timeout" ∷ "5m" ∷ [])
      >> pure tt

  unfoldable pub load_image_to_kind_cluster_with_name : String → Exec W (Unit {0})
  load_image_to_kind_cluster_with_name name = do
    cluster ← gets (λ w. cluster_or_kind (system.lookup_env "KIND_CLUSTER" w))
    run_cmd ("kind" ∷ "load" ∷ "docker-image" ∷ name ∷ "--name" ∷ cluster ∷ [])
    pure tt
