-- ===== src/Operator/Tests/Starting.antt =====
-- The start of an operator whose environment asks for a negative interval.
use threadr.Common.{String, false, List, [], ◌∷◌, ◌≡◌, refl, if◌then◌else◌, str_eq}
use threadr.Common.Int.{ℤ, negsuc, IsPositive}
use threadr.Common.Space.{trim_space}
use threadr.Common.Exec.{Result, ok, ◌>>=◌}
use threadr.Operator.ControlPlane.Config.{
  enabled, config_from_env, new_http_client, default_sync_interval,
}
use threadr.Operator.Start.{Flags, Manager, set_up_control_plane, operator_main}
use threadr.Operator.Start.Safe.{SafeCalls, operator_main_safe}

-- The intervals of the tickers that have been made.
abbrev manager : Manager (List ℤ) String
manager = record {
  new_manager = λ options w. (ok tt, w);
  set_up_irc_bots = λ w. (ok tt, w);
  add_syncer = λ syncer w. (ok tt, syncer.sync_interval ∷ w);
  set_up_threadr_bots = λ reporter w. (ok tt, w);
  add_healthz_check = λ w. (ok tt, w);
  add_readyz_check = λ w. (ok tt, w);
  start = λ w. (ok tt, w);
}

abbrev AllPositive : List ℤ → Type 0
AllPositive [] = Unit
AllPositive (i ∷ is) = IsPositive i × AllPositive is

abbrev flags : Flags
flags = record {
  metrics_addr = ":8080";
  probe_addr = ":8081";
  enable_leader_election = false;
  secure_metrics = false;
  enable_http2 = false;
}

abbrev getenv : String → String
getenv name = if str_eq name "THREADR_CONTROL_PLANE_SYNC_INTERVAL" then "-5ns" else " x "

abbrev parse_duration : String → Result ℤ
parse_duration raw = ok (negsuc 4)

abbrev parse_url : String → Result String
parse_url raw = ok raw

calls : SafeCalls manager parse_url getenv flags AllPositive
calls = record {
  new_manager = λ options hardened. record { at = λ w h. h };
  set_up_irc_bots = record { at = λ w h. h };
  add_syncer = λ syncer positive usable. record { at = λ w h. (positive, h) };
  set_up_threadr_bots = λ reporter usable. record { at = λ w h. h };
  add_healthz_check = record { at = λ w h. h };
  add_readyz_check = record { at = λ w h. h };
  start = record { at = λ w h. h };
}

main_test :
    operator_main manager parse_duration parse_url flags getenv []
    ≡ (ok tt, default_sync_interval ∷ [])
unfolding operator_main set_up_control_plane config_from_env new_http_client enabled trim_space
    ◌>>=◌
main_test = refl

operator_main_safe_example :
    AllPositive (operator_main manager parse_duration parse_url flags getenv []).1
operator_main_safe_example =
    (operator_main_safe manager parse_duration parse_url flags getenv AllPositive calls).at [] tt
