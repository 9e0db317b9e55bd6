-- ===== src/Operator/Smoke/Run.antt =====
-- `main` of cmd/threadrbot-smoke/main.go: the operator is run against a test cluster until it has
-- realized a contract. A call that fails ends in `exitf`, which runs no deferred call.
-- An error keeps its cause, also where the code only prints it.
pub mod Quiet
pub mod Teardown
use threadr.Common.{
  ℕ, ◌+◌, ◌-◌, suc, String, Bool, Option, none, some, List, ◌||◌, not, if◌then◌else◌, str_eq,
}
use threadr.Common.Int.{ℤ, pos, negsuc}
use threadr.Common.Exec.{
  Result, ok, err, failed, Exec, pure, lift, gets, attempt, wrap, wrap_err, ◌>>=◌, ◌>>◌,
}
use Prim.Native.String.{◌++◌ as str_append}
use threadr.Operator.ControlPlane.{BotContract}
use threadr.Operator.ControlPlane.Config.{
  Config, enabled, config_from_env, HttpClient, new_http_client,
}
use threadr.Operator.Smoke.{SmokeTarget, filtered_list_bot_contracts}
use threadr.Operator.Smoke.Wait.{Poller, Realized, wait}

-- 30 s and 2 s.
abbrev pub default_smoke_timeout : ℤ
default_smoke_timeout = pos 30000000000

abbrev pub smoke_sync_interval : ℤ
smoke_sync_interval = pos 2000000000

-- The syncer lists its contracts by `list`.
pub record SmokeSyncer (W : Type 0) : Type 0 where
  pub list : Exec W (List BotContract)
  pub sync_interval : ℤ

-- envtest, the manager and the goroutine that runs it. `start_env` takes the directory of the binaries,
-- `none` where the environment names one already, and `platform` is "GOOS-GOARCH".
pub record SmokeCluster (W U : Type 0) : Type 0 where
  pub platform : String
  pub start_env : Option String → Exec W (Unit {0})
  pub stop_env : Exec W (Unit {0})
  pub new_manager : Exec W (Unit {0})
  pub set_up_threadr_bots : HttpClient U → Exec W (Unit {0})
  pub add_syncer : SmokeSyncer W → Exec W (Unit {0})
  pub launch : Exec W (Unit {0})
  pub cancel : Exec W (Unit {0})
  pub list_bot_contracts : HttpClient U → Exec W (List BotContract)
  pub reader : Poller W

-- A time plus a duration; a time before the first is the first.
abbrev pub add_duration : ℕ → ℤ → ℕ
add_duration time (pos n) = time + n
add_duration time (negsuc n) = time - suc n

abbrev pub smoke_target : (String → String) → SmokeTarget
smoke_target getenv = record {
  namespace = getenv "THREADR_BOT_SMOKE_NAMESPACE";
  deployment_name = getenv "THREADR_BOT_SMOKE_DEPLOYMENT_NAME";
}

abbrev pub assets_directory : String → String → Option String
assets_directory platform given =
    if str_eq given "" then some (str_append "bin/k8s/1.28.3-" platform) else none

module _ (parse_duration : String → Result ℤ) where
  abbrev pub timeout_from : String → Result ℤ
  timeout_from raw =
      if not (str_eq raw "")
      then wrap_err "parse THREADR_BOT_SMOKE_TIMEOUT" (parse_duration raw)
      else ok default_smoke_timeout

  abbrev pub settings_of : Result ℤ → Config → Result (Config × ℤ)
  settings_of (ok timeout) config = ok (config, timeout)
  settings_of (err e) config = err e

  abbrev pub settings_with : Result ℤ → Result Config → Result (Config × ℤ)
  settings_with timeout (ok config) =
      if not (enabled config)
      then err
          (failed "THREADR_CONTROL_PLANE_BASE_URL and THREADR_CONTROL_PLANE_TOKEN are required")
      else settings_of timeout config
  settings_with timeout (err e) = err e

  unfoldable pub smoke_settings : (String → String) → Result (Config × ℤ)
  smoke_settings getenv =
      settings_with (timeout_from (getenv "THREADR_BOT_SMOKE_TIMEOUT"))
        (wrap_err "invalid control plane configuration" (config_from_env parse_duration getenv))

module _ {W U : Type 0} (smoke : SmokeCluster W U) (parse_url : String → Result U) where
  abbrev pub contract_list : HttpClient U → SmokeTarget → Exec W (List BotContract)
  contract_list client target =
      if not (str_eq target.namespace "") || not (str_eq target.deployment_name "")
      then filtered_list_bot_contracts (smoke.list_bot_contracts client) target
      else smoke.list_bot_contracts client

  abbrev pub smoke_syncer : HttpClient U → SmokeTarget → SmokeSyncer W
  smoke_syncer client target = record {
    list = contract_list client target;
    sync_interval = smoke_sync_interval;
  }

  -- What is done while the test cluster is up.
  unfoldable pub smoke_run : ℕ → SmokeTarget → Config → ℤ → Exec W (Option Realized)
  smoke_run fuel target config timeout = do
    wrap "create manager" smoke.new_manager
    client ← wrap "create control plane client" (lift (new_http_client parse_url config))
    wrap "setup ThreadrBot reconciler" (smoke.set_up_threadr_bots client)
    wrap "add ThreadrBot contract syncer" (smoke.add_syncer (smoke_syncer client target))
    smoke.launch
    time ← gets smoke.reader.now
    wrap "wait for contract realization" (wait smoke.reader fuel (add_duration time timeout) target)

  -- The deferred calls, last to first; an error of the second is only logged.
  abbrev pub torn_down : Option Realized → Exec W (Option Realized)
  torn_down realized = attempt smoke.cancel >> attempt smoke.stop_env >> pure realized

  unfoldable pub smoke_main : ℕ → (String → Result ℤ) → (String → String) → Exec W (Option Realized)
  smoke_main fuel parse_duration getenv = do
    settings ← lift (smoke_settings parse_duration getenv)
    wrap "start envtest"
        (smoke.start_env (assets_directory smoke.platform (getenv "KUBEBUILDER_ASSETS")))
    realized ← smoke_run fuel (smoke_target getenv) settings.0 settings.1
    torn_down realized
