-- ===== src/Operator/Start.antt =====
-- The entry point of the operator, cmd/main.go. The manager of controller-runtime is a record of calls
-- on a world; a call that fails ends the program, with the logged message and the exit code 1.
-- An error keeps its cause, also where the code only prints it.
pub mod Safe
use threadr.Common.{String, Bool, Option, none, some, List, [], ◌∷◌, not, if◌then◌else◌}
use threadr.Common.Int.{ℤ, is_nonpositive}
use threadr.Common.Exec.{Result, Exec, pure, lift, wrap, ◌>>=◌, ◌>>◌}
use threadr.Operator.ControlPlane.Config.{
  Config, enabled, config_from_env, HttpClient, new_http_client, default_sync_interval,
}

pub record Flags : Type 0 where
  pub metrics_addr : String
  pub probe_addr : String
  pub enable_leader_election : Bool
  pub secure_metrics : Bool
  pub enable_http2 : Bool

-- What a TLS option changes of a `tls.Config`.
pub record TlsConfig : Type 0 where
  pub next_protos : List String

abbrev pub disable_http2 : TlsConfig → TlsConfig
disable_http2 c = record c { next_protos = "http/1.1" ∷ [] }

abbrev pub tls_opts : Bool → List (TlsConfig → TlsConfig)
tls_opts enable_http2 = if not enable_http2 then disable_http2 ∷ [] else []

-- The two servers take the same TLS options.
pub record ManagerOptions : Type 0 where
  pub metrics_addr : String
  pub secure_metrics : Bool
  pub metrics_tls : List (TlsConfig → TlsConfig)
  pub webhook_tls : List (TlsConfig → TlsConfig)
  pub probe_addr : String
  pub leader_election : Bool
  pub leader_election_id : String
  pub leader_election_namespace : String

unfoldable pub manager_options : Flags → ManagerOptions
manager_options flags = record {
  metrics_addr = flags.metrics_addr;
  secure_metrics = flags.secure_metrics;
  metrics_tls = tls_opts flags.enable_http2;
  webhook_tls = tls_opts flags.enable_http2;
  probe_addr = flags.probe_addr;
  leader_election = flags.enable_leader_election;
  leader_election_id = "e2db2faa.threadr.ai";
  leader_election_namespace = "threadr";
}

-- `ThreadrBotContractSyncer`, as far as the entry point sets it up.
pub record Syncer (U : Type 0) : Type 0 where
  pub contract_client : HttpClient U
  pub sync_interval : ℤ

-- A reconciler of ThreadrBots is set up with a status reporter, or with none.
pub record Manager (W U : Type 0) : Type 0 where
  pub new_manager : ManagerOptions → Exec W (Unit {0})
  pub set_up_irc_bots : Exec W (Unit {0})
  pub add_syncer : Syncer U → Exec W (Unit {0})
  pub set_up_threadr_bots : Option (HttpClient U) → Exec W (Unit {0})
  pub add_healthz_check : Exec W (Unit {0})
  pub add_readyz_check : Exec W (Unit {0})
  pub start : Exec W (Unit {0})

abbrev pub syncer_interval : Config → ℤ
syncer_interval config =
    if is_nonpositive config.sync_interval then default_sync_interval else config.sync_interval

module _ {W U : Type 0} (manager : Manager W U) (parse_duration : String → Result ℤ)
    (parse_url : String → Result U) where
  abbrev pub add_contract_syncer : Config → HttpClient U → Exec W (Option (HttpClient U))
  add_contract_syncer config client =
      wrap "unable to add ThreadrBot contract syncer" (
        manager.add_syncer
          (record { contract_client = client; sync_interval = syncer_interval config }))
      >> pure (some client)

  unfoldable pub set_up_control_plane : Config → Exec W (Option (HttpClient U))
  set_up_control_plane config =
      if enabled config
      then (wrap "unable to create control plane client" (lift (new_http_client parse_url config))
          >>= add_contract_syncer config)
      else pure none

  unfoldable pub operator_main : Flags → (String → String) → Exec W (Unit {0})
  operator_main flags getenv = do
    wrap "unable to start manager" (manager.new_manager (manager_options flags))
    wrap "unable to create controller IRCBot" manager.set_up_irc_bots
    config ←
        wrap "invalid control plane sync configuration"
          (lift (config_from_env parse_duration getenv))
    reporter ← set_up_control_plane config
    wrap "unable to create controller ThreadrBot" (manager.set_up_threadr_bots reporter)
    wrap "unable to set up health check" manager.add_healthz_check
    wrap "unable to set up ready check" manager.add_readyz_check
    wrap "problem running manager" manager.start
