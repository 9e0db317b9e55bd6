-- ===== src/Operator/Tests/Control.antt =====
-- The calls of the control plane, and the smoke run.
use threadr.Common.{
  ℕ, String, none, List, [], ◌∷◌, ◌≡◌, ◌↔◌, refl, inl, inr, str_ne, String-discrete,
}
use threadr.Common.Maps.{Found-discrete, lookup}
use threadr.Common.Exec.{ok, Exec, is_not_found, ◌>>=◌}
use threadr.Common.Exec.Preserves.{Preserves}
use threadr.Operator.Kube.{ObjectKey, ObjectKey-discrete}
use threadr.Operator.ControlPlane.{BotContract, StatusReport}
use threadr.Common.Http.{Request}
use threadr.Operator.ControlPlane.Http.{
  Response, Transport, status_path, report_bot_status, list_bot_contracts,
}
use threadr.Operator.ControlPlane.Http.Outcome.{
  IsAccepted, report_bot_status_iff, list_bot_contracts_iff,
}
use threadr.Operator.Cluster.{Cluster, empty, client}
use threadr.Operator.Cluster.Bots.{bots_lawful}
use threadr.Operator.Sync.{
  is_expected, sync_once, apply_contracts, apply_contract, put_bot, ensure_namespace,
  namespace_found, delete_orphaned_contracts, delete_unexpected, contract_labels,
}
use threadr.Operator.Smoke.{
  SmokeTarget, keep_matching, filtered_list_bot_contracts, Matches, smoke_makes_target_only,
}
use threadr.Operator.Tests.Samples.{bot}

abbrev report : StatusReport
report = record {
  tenant_subject = "acme";
  bot_id = "b1";
  status = "deleted";
  reason = "";
  deployment_name = "irc-main";
  observed_at = 7;
  generation = 3;
  ready_replicas = 0;
  available_replicas = 0;
}

-- A control plane that knows of no bot: every request is answered with 404.
abbrev not_there : Transport ℕ
not_there = record {
  resolve = λ path. path;
  new_request =
      λ method url body. ok (record { method = method; url = url; body = body; header = [] });
  send = λ request n. (ok (record { status_code = 404; body = "" }), n);
  marshal = λ body. ok "{}";
  decode_contracts = λ body. ok [];
  decimal = λ n. "404";
}

abbrev posted : Request
posted = record { method = "POST"; url = status_path report; body = "{}"; header = [] }

abbrev asked : Request
asked = record { method = "GET"; url = "/api/control-plane/bot-contracts"; body = ""; header = [] }

abbrev missing : Response
missing = record { status_code = 404; body = "" }

report_bot_status_iff_example :
    (report_bot_status not_there "t" report 0 ≡ (ok tt, 0)) ↔ IsAccepted report 404
report_bot_status_iff_example =
    report_bot_status_iff not_there "t" report "{}" posted missing 0 0 refl refl refl

list_bot_contracts_iff_example :
    (list_bot_contracts not_there "t" 0 ≡ (ok [], 0))
    ↔ ((missing.status_code ≡ 200) × (not_there.decode_contracts "" ≡ ok []))
list_bot_contracts_iff_example = list_bot_contracts_iff not_there "t" [] asked missing 0 0 refl refl

abbrev contract_of : String → BotContract
contract_of name = record {
  id = "c1";
  tenant_id = "t1";
  bot_id = "b1";
  generation = 3;
  operation = "upsert";
  deployment_name = name;
  namespace = "bots";
  contract = bot;
}

abbrev target : SmokeTarget
target = record { namespace = ""; deployment_name = "irc-main" }

abbrev hand_out : Exec Cluster (List BotContract)
hand_out w = (ok (contract_of "irc-main" ∷ contract_of "irc-spare" ∷ []), w)

abbrev spare : ObjectKey
spare = record { namespace = "bots"; name = "irc-spare" }

abbrev after : Cluster
after = (sync_once client (filtered_list_bot_contracts hand_out target) empty).1

ran : sync_once client (filtered_list_bot_contracts hand_out target) empty ≡ (ok tt, after)
unfolding sync_once filtered_list_bot_contracts keep_matching apply_contracts apply_contract put_bot
    ensure_namespace namespace_found delete_orphaned_contracts delete_unexpected is_expected ◌>>=◌
    is_not_found ObjectKey-discrete String-discrete Found-discrete contract_labels lookup
ran = refl

not_spare : ¬ Matches target spare
not_spare (namespace, inl none_named) = str_ne "irc-main" "" refl none_named
not_spare (namespace, inr same) = str_ne "irc-spare" "irc-main" refl same

empty_before : bots_lawful.bot_at empty spare ≡ none
unfolding bots_lawful is_expected
empty_before = refl

quiet : Preserves bots_lawful.bot_at hand_out
quiet = record { at = λ w. refl }

smoke_makes_target_only_example : bots_lawful.bot_at after spare ≡ none
smoke_makes_target_only_example =
    smoke_makes_target_only client bots_lawful hand_out target empty after spare quiet not_spare
      empty_before ran
