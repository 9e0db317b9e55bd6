-- ===== src/Operator/ControlPlane/Config.antt =====
-- The configuration of the client in internal/controlplane/client.go: ConfigFromEnv, Enabled and
-- NewHTTPClient. The environment, time.ParseDuration and url.Parse are parameters.
use threadr.Common.{String, Bool, ◌&&◌, not, if◌then◌else◌, str_eq}
use threadr.Common.Int.{ℤ, pos}
use threadr.Common.Space.{trim_space}
use threadr.Common.Exec.{Result, ok, err, wrap_err}

-- A duration is a number of nanoseconds.
pub record Config : Type 0 where
  pub base_url : String
  pub token : String
  pub sync_interval : ℤ

unfoldable pub enabled : Config → Bool
enabled config = not (str_eq config.base_url "") && not (str_eq config.token "")

-- 15 s.
abbrev pub default_sync_interval : ℤ
default_sync_interval = pos 15000000000

module _ (parse_duration : String → Result ℤ) where
  abbrev pub interval_from : String → Result ℤ
  interval_from raw =
      if str_eq raw ""
      then ok default_sync_interval
      else wrap_err "parse THREADR_CONTROL_PLANE_SYNC_INTERVAL" (parse_duration raw)

  abbrev pub config_with : (String → String) → Result ℤ → Result Config
  config_with getenv (err e) = err e
  config_with getenv (ok sync_interval) = ok (record {
    base_url = trim_space (getenv "THREADR_CONTROL_PLANE_BASE_URL");
    token = trim_space (getenv "THREADR_CONTROL_PLANE_TOKEN");
    sync_interval = sync_interval;
  })

  unfoldable pub config_from_env : (String → String) → Result Config
  config_from_env getenv =
      config_with getenv (interval_from (trim_space (getenv "THREADR_CONTROL_PLANE_SYNC_INTERVAL")))

pub record HttpClient (U : Type 0) : Type 0 where
  pub base_url : U
  pub token : String
  pub timeout : ℤ

module _ {U : Type 0} (parse_url : String → Result U) where
  abbrev pub client_with : Config → Result U → Result (HttpClient U)
  client_with config (err e) = err e
  client_with config (ok url) =
      ok (record { base_url = url; token = config.token; timeout = pos 15000000000 })

  unfoldable pub new_http_client : Config → Result (HttpClient U)
  new_http_client config =
      client_with config (wrap_err "parse control plane base URL" (parse_url config.base_url))
