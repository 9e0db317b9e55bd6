-- ===== src/Operator/Tests/Smoking.antt =====
-- Smoke runs against a cluster that is up from 1 on.
use threadr.Common.{String, Bool, true, false, some, [], ◌∷◌, ◌≡◌, refl, if◌then◌else◌, str_eq}
use threadr.Common.Int.{ℤ, pos}
use threadr.Common.Space.{trim_space}
use threadr.Common.Exec.{Result, ok, err, not_found, ◌>>=◌}
use threadr.Operator.ControlPlane.Config.{enabled, config_from_env, Config, new_http_client}
use threadr.Operator.Smoke.Wait.{first_realized, wait}
use threadr.Operator.Smoke.Run.{
  SmokeCluster, smoke_settings, smoke_target, default_smoke_timeout, smoke_run, smoke_main,
}
use threadr.Operator.Smoke.Run.Quiet.{RunsQuietly}
use threadr.Operator.Smoke.Run.Teardown.{EndsWell, smoke_main_ends}
use threadr.Operator.Tests.Samples.{bot, desired}

-- The world is whether the test cluster is up.
abbrev smoke : SmokeCluster Bool String
smoke = record {
  platform = "linux-amd64";
  start_env = λ assets up. (ok tt, true);
  stop_env = λ up. (ok tt, false);
  new_manager = λ up. (ok tt, up);
  set_up_threadr_bots = λ client up. (ok tt, up);
  add_syncer = λ syncer up. (ok tt, up);
  launch = λ up. (ok tt, up);
  cancel = λ up. (ok tt, up);
  list_bot_contracts = λ client up. (ok [], up);
  reader = record {
    list_all = λ up. (ok (bot ∷ []), up);
    get_deployment = λ key up. (ok desired, up);
    sleep = λ up. (ok tt, up);
    now = λ up. 7;
  };
}

abbrev getenv : String → String
getenv name =
    if str_eq name "THREADR_CONTROL_PLANE_BASE_URL"
    then "http://plane"
    else if str_eq name "THREADR_CONTROL_PLANE_TOKEN"
    then "secret"
    else ""

abbrev parse : String → Result ℤ
parse raw = err not_found

abbrev parse_url : String → Result String
parse_url raw = ok raw

abbrev config : Config
config = record { base_url = "http://plane"; token = "secret"; sync_interval = pos 15000000000 }

settings_test : smoke_settings parse getenv ≡ ok (config, default_smoke_timeout)
unfolding smoke_settings enabled config_from_env trim_space
settings_test = refl

passes_test : smoke_main smoke parse_url 3 parse getenv false ≡ (ok (some (bot, desired)), false)
unfolding smoke_main smoke_settings enabled config_from_env trim_space smoke_run new_http_client
    wait first_realized ◌>>=◌
passes_test = refl

quiet : RunsQuietly smoke (λ up. up)
quiet = record {
  new_manager = record { at = λ up. refl };
  set_up_threadr_bots = λ client. record { at = λ up. refl };
  add_syncer = λ syncer. record { at = λ up. refl };
  launch = record { at = λ up. refl };
  polls = record {
    list_all = record { at = λ up. refl };
    get_deployment = λ key. record { at = λ up. refl };
    sleep = record { at = λ up. refl };
  };
}

smoke_main_ends_example :
    EndsWell smoke parse_url
      (λ up. up)
      (smoke_target getenv)
      true
      (smoke_main smoke parse_url 3 parse getenv false)
smoke_main_ends_example =
    smoke_main_ends smoke parse_url (λ up. up) quiet 3 parse getenv config default_smoke_timeout
      false true settings_test refl
