-- ===== src/Operator/Start/Safe.antt =====
-- What the entry point hands to the manager.
use threadr.Common.{
  String, Bool, true, false, Option, none, some, List, [], ◌∷◌, ◌≡◌, ◌≢◌, refl, sym, ◌∙◌, ap, subst,
  str_eq_iff, Bool-cases, inl, inr, arith,
}
use threadr.Common.Int.{ℤ, pos, IsPositive, is_nonpositive, is_nonpositive-IsPositive}
use threadr.Common.Exec.{Result, ok, err, wrap_err, bind-eq-ok, pure-eq-ok, lift-eq-ok, wrap-eq-ok}
use threadr.Common.Exec.Keeps.{
  Keeps, pure-Keeps, wrap-Keeps, bind-Keeps, bind_lifted-Keeps, bind_yields-Keeps,
}
use threadr.Operator.ControlPlane.Config.{
  Config, enabled, HttpClient, client_with, new_http_client, config_with, config_from_env,
}
use threadr.Common.Space.{trim_space}
use threadr.Operator.Start.{
  Flags, TlsConfig, tls_opts, ManagerOptions, manager_options, Syncer, Manager, syncer_interval,
  add_contract_syncer, set_up_control_plane, operator_main,
}

-- The TLS configuration after its options, in order.
abbrev pub configured : List (TlsConfig → TlsConfig) → TlsConfig → TlsConfig
configured [] c = c
configured (opt ∷ opts) c = configured opts (opt c)

-- A server that takes these options offers HTTP/1.1 and nothing else.
abbrev pub RefusesHttp2 : List (TlsConfig → TlsConfig) → Type 0
RefusesHttp2 opts = (c : TlsConfig) → (configured opts c).next_protos ≡ "http/1.1" ∷ []

-- Both servers refuse HTTP/2, unless a flag asks for it.
pub record IsHardened (flags : Flags) (options : ManagerOptions) : Type 0 where
  pub metrics : flags.enable_http2 ≡ false → RefusesHttp2 options.metrics_tls
  pub webhook : flags.enable_http2 ≡ false → RefusesHttp2 options.webhook_tls

-- The client has a time-out, and a token and a URL from two variables of the environment, the blanks
-- around them taken off, neither of which is blank.
pub record IsUsable {U : Type 0} (parse_url : String → Result U) (getenv : String → String)
    (client : HttpClient U) : Type 0 where
  pub token : client.token ≡ trim_space (getenv "THREADR_CONTROL_PLANE_TOKEN")
  pub some_token : client.token ≢ ""
  pub timeout : IsPositive client.timeout
  pub url : parse_url (trim_space (getenv "THREADR_CONTROL_PLANE_BASE_URL")) ≡ ok client.base_url
  pub some_url : trim_space (getenv "THREADR_CONTROL_PLANE_BASE_URL") ≢ ""

abbrev pub AllUsable :
    {U : Type 0} → (String → Result U) → (String → String) → Option (HttpClient U) → Type 0
AllUsable parse_url getenv none = Unit
AllUsable parse_url getenv (some client) = IsUsable parse_url getenv client

-- `P` survives each call of the manager, as long as the call's argument is fit for it: a ticker
-- panics at an interval that is not positive.
pub record SafeCalls {W U : Type 0} (manager : Manager W U) (parse_url : String → Result U)
    (getenv : String → String) (flags : Flags) (P : W → Type 0) : Type 0 where
  pub new_manager :
      (options : ManagerOptions) → IsHardened flags options → Keeps P (manager.new_manager options)
  pub set_up_irc_bots : Keeps P manager.set_up_irc_bots
  pub add_syncer :
      (syncer : Syncer U)
      → IsPositive syncer.sync_interval
      → IsUsable parse_url getenv syncer.contract_client
      → Keeps P (manager.add_syncer syncer)
  pub set_up_threadr_bots :
      (reporter : Option (HttpClient U))
      → AllUsable parse_url getenv reporter
      → Keeps P (manager.set_up_threadr_bots reporter)
  pub add_healthz_check : Keeps P manager.add_healthz_check
  pub add_readyz_check : Keeps P manager.add_readyz_check
  pub start : Keeps P manager.start

abbrev FromEnv : (String → String) → Config → Type 0
FromEnv getenv config =
    (config.base_url ≡ trim_space (getenv "THREADR_CONTROL_PLANE_BASE_URL"))
    × (config.token ≡ trim_space (getenv "THREADR_CONTROL_PLANE_TOKEN"))

config_with-FromEnv :
    (parse_duration : String → Result ℤ) (getenv : String → String) (interval : Result ℤ)
    (config : Config)
    → config_with parse_duration getenv interval ≡ ok config
    → FromEnv getenv config
config_with-FromEnv parse_duration getenv (err e) config h = absurd cc
config_with-FromEnv parse_duration getenv (ok interval) config h =
    subst (FromEnv getenv) (ap (λ (r : Result Config). elim r [ ok c ↦ c | err e ↦ config ]) h)
      (refl, refl)

config_from_env-FromEnv :
    (parse_duration : String → Result ℤ) (getenv : String → String) (config : Config)
    → config_from_env parse_duration getenv ≡ ok config
    → FromEnv getenv config
unfolding config_from_env
config_from_env-FromEnv parse_duration getenv config h =
    config_with-FromEnv parse_duration getenv _ config h

tls_opts-RefusesHttp2 : (enable : Bool) → enable ≡ false → RefusesHttp2 (tls_opts enable)
tls_opts-RefusesHttp2 true off c = cc
tls_opts-RefusesHttp2 false off c = refl

manager_options-IsHardened : (flags : Flags) → IsHardened flags (manager_options flags)
unfolding manager_options
manager_options-IsHardened flags = record {
  metrics = tls_opts-RefusesHttp2 flags.enable_http2;
  webhook = tls_opts-RefusesHttp2 flags.enable_http2;
}

syncer_interval-IsPositive : (config : Config) → IsPositive (syncer_interval config)
syncer_interval-IsPositive config = elim (Bool-cases (is_nonpositive config.sync_interval)) [
  | inl given ↦ rw given (omega arith)
  | inr missing ↦ rw missing (is_nonpositive-IsPositive config.sync_interval missing)
]

enabled_texts :
    (config : Config) → enabled config ≡ true → (config.base_url ≢ "") × (config.token ≢ "")
unfolding enabled
enabled_texts config on = ground (arith, str_eq_iff config.base_url "", str_eq_iff config.token "")

module _ {U : Type 0} (parse_url : String → Result U) (getenv : String → String) (config : Config)
    (given : FromEnv getenv config) where
  client_with-IsUsable :
      (url : Result U) (client : HttpClient U)
      → parse_url config.base_url ≡ url
      → enabled config ≡ true
      → client_with parse_url config (wrap_err "parse control plane base URL" url) ≡ ok client
      → IsUsable parse_url getenv client
  client_with-IsUsable (err e) client parsed on h = absurd cc
  client_with-IsUsable (ok url) client parsed on h =
      let (some_url, some_token) = enabled_texts config on in
      let made : HttpClient U = record {
        base_url = url;
        token = config.token;
        timeout = pos 15000000000;
      } in
      subst (IsUsable parse_url getenv)
        (ap (λ (r : Result (HttpClient U)). elim r [ ok c ↦ c | err e ↦ client ]) h)
        (let usable : IsUsable parse_url getenv made = record {
          token = given.1;
          some_token = some_token;
          timeout = omega arith;
          url = ap parse_url (sym given.0) ∙ parsed;
          some_url = λ blank. some_url (given.0 ∙ blank);
        } in
          usable)

  new_http_client-IsUsable :
      (client : HttpClient U)
      → enabled config ≡ true
      → new_http_client parse_url config ≡ ok client
      → IsUsable parse_url getenv client
  unfolding new_http_client
  new_http_client-IsUsable client on h =
      client_with-IsUsable (parse_url config.base_url) client refl on h

module _ {W U : Type 0} (manager : Manager W U) (parse_duration : String → Result ℤ)
    (parse_url : String → Result U) (flags : Flags) (getenv : String → String) (P : W → Type 0)
    (safe : SafeCalls manager parse_url getenv flags P) where
  added_reporter :
      (config : Config) (client : HttpClient U) (w w' : W) (reporter : Option (HttpClient U))
      → IsUsable parse_url getenv client
      → add_contract_syncer manager parse_duration parse_url config client w ≡ (ok reporter, w')
      → AllUsable parse_url getenv reporter
  added_reporter config client w w' reporter usable h =
      let (_, v, added, rest) = bind-eq-ok _ _ h in
      let (same, _) = pure-eq-ok rest in subst (AllUsable parse_url getenv) same usable

  reporter-AllUsable :
      (config : Config) (w w' : W) (reporter : Option (HttpClient U))
      → FromEnv getenv config
      → set_up_control_plane manager parse_duration parse_url config w ≡ (ok reporter, w')
      → AllUsable parse_url getenv reporter
  unfolding set_up_control_plane
  reporter-AllUsable config w w' reporter given h = elim (Bool-cases (enabled config)) [
    | inl on ↦
        let (client, v, made, rest) = bind-eq-ok _ _ (rw on at h) in
        added_reporter config client v w' reporter
          (new_http_client-IsUsable parse_url getenv config given client on
            (lift-eq-ok (wrap-eq-ok _ _ made)).0)
          rest
    | inr off ↦
        let (same, _) = pure-eq-ok (rw off at h) in subst (AllUsable parse_url getenv) same tt
  ]

  set_up_control_plane-Keeps :
      (config : Config)
      → FromEnv getenv config
      → Keeps P (set_up_control_plane manager parse_duration parse_url config)
  unfolding set_up_control_plane
  set_up_control_plane-Keeps config given = elim (Bool-cases (enabled config)) [
    | inl on ↦ rw on (
        bind_lifted-Keeps _ (new_http_client parse_url config) _ λ client made.
          bind-Keeps _ _
            (wrap-Keeps _ _ (
              safe.add_syncer _ (syncer_interval-IsPositive config)
                (new_http_client-IsUsable parse_url getenv config given client on made)))
            λ _. pure-Keeps _)
    | inr off ↦ rw off (pure-Keeps none)
  ]

  -- Whatever the flags and the environment, the operator makes only calls that are fit: its servers
  -- refuse HTTP/2 unless a flag asks for it, the contract syncer that it adds has a positive interval,
  -- and a client that it hands on has a time-out and the token and the URL of the environment, the
  -- blanks around them taken off, neither of which is blank.
  pub operator_main_safe : Keeps P (operator_main manager parse_duration parse_url flags getenv)
  unfolding operator_main
  operator_main_safe =
      bind-Keeps _ _ (wrap-Keeps _ _ (safe.new_manager _ (manager_options-IsHardened flags))) λ _.
        bind-Keeps _ _ (wrap-Keeps _ _ safe.set_up_irc_bots) λ _.
          bind_lifted-Keeps _ (config_from_env parse_duration getenv) _ λ config read.
            let given = config_from_env-FromEnv parse_duration getenv config read in
            bind_yields-Keeps _ _ (AllUsable parse_url getenv)
              (set_up_control_plane-Keeps config given)
              (λ w w' reporter. reporter-AllUsable config w w' reporter given)
              λ reporter usable.
                bind-Keeps _ _ (wrap-Keeps _ _ (safe.set_up_threadr_bots reporter usable)) λ _.
                  bind-Keeps _ _ (wrap-Keeps _ _ safe.add_healthz_check) λ _.
                    bind-Keeps _ _ (wrap-Keeps _ _ safe.add_readyz_check)
                      λ _. wrap-Keeps _ _ safe.start
