-- ===== src/Operator/Tests/Syncer.antt =====
-- A pass of the contract syncer on a cluster in memory.
use threadr.Common.{String-discrete, String, none, some, List, [], ◌∷◌, ◌≡◌, refl}
use threadr.Common.Maps.{Found-discrete, lookup}
use threadr.Common.Exec.{is_not_found, ok, Exec, ◌>>=◌}
use threadr.Operator.Kube.{ObjectKey-discrete}
use threadr.Operator.Types.{ThreadrBot, bot_key, defaulted}
use threadr.Operator.ControlPlane.{BotContract}
use threadr.Operator.Sync.{
  apply_contracts, apply_contract, put_bot, ensure_namespace, namespace_found,
  delete_orphaned_contracts, delete_unexpected, delete_orphan, orphan_deleted, contract_labels,
  sync_once, is_expected,
}
use threadr.Operator.Sync.Spec.{synced}
use threadr.Operator.Sync.Refine.{sync_once_refines}
use threadr.Operator.Cluster.{Cluster, client, bot_in, set_bot}
use threadr.Operator.Cluster.Bots.{bots_lawful}
use threadr.Operator.Tests.Samples.{metadata, bot, before}
use threadr.Operator.Sync.Loop.{start, passes, tick, done, start_recovers}
use threadr.Common.Exec.Preserves.{Preserves}

abbrev contract_of : String → ThreadrBot → BotContract
contract_of name bot = record {
  id = "c1";
  tenant_id = "t1";
  bot_id = "b1";
  generation = 3;
  operation = "upsert";
  deployment_name = name;
  namespace = "bots";
  contract = bot;
}

abbrev contracts : List BotContract
contracts = contract_of "irc-main" bot ∷ contract_of "irc-spare" bot ∷ []

abbrev hand_out : Exec Cluster (List BotContract)
hand_out w = (ok contracts, w)

-- A bot that an earlier pass made and that no contract names any more.
abbrev orphan : ThreadrBot
orphan = record bot {
  metadata =
      metadata "bots" "irc-old"
        (some (("threadr.io/synced-by", "threadrbot-contract-syncer") ∷ []));
}

abbrev mixed : Cluster
mixed = set_bot (bot_key orphan) (some orphan) before

abbrev tidy : Cluster
tidy = (sync_once client hand_out mixed).1

synced_ok : sync_once client hand_out mixed ≡ (ok tt, tidy)
unfolding sync_once apply_contracts apply_contract put_bot ensure_namespace namespace_found
    delete_orphaned_contracts delete_unexpected delete_orphan orphan_deleted is_expected ◌>>=◌
    is_not_found ObjectKey-discrete String-discrete Found-discrete contract_labels lookup
synced_ok = refl

sync_once_refines_example :
    bot_in tidy (bot_key orphan) ≡ synced defaulted (bot_in mixed) contracts (bot_key orphan)
unfolding bots_lawful
sync_once_refines_example =
    sync_once_refines client bots_lawful hand_out contracts mixed mixed tidy
      (record { at = λ w. refl }) refl synced_ok (bot_key orphan)

orphan_gone_test : bot_in tidy (bot_key orphan) ≡ none
unfolding sync_once apply_contracts apply_contract put_bot ensure_namespace namespace_found
    delete_orphaned_contracts delete_unexpected delete_orphan orphan_deleted is_expected ◌>>=◌
    is_not_found ObjectKey-discrete String-discrete Found-discrete contract_labels lookup
orphan_gone_test = refl

abbrev later : Cluster
later = passes client hand_out 1 mixed

recovered : (sync_once client hand_out later).0 ≡ ok tt
unfolding sync_once apply_contracts apply_contract put_bot ensure_namespace namespace_found
    delete_orphaned_contracts delete_unexpected delete_orphan orphan_deleted is_expected ◌>>=◌
    is_not_found ObjectKey-discrete String-discrete Found-discrete contract_labels lookup
recovered = refl

quiet : Preserves bots_lawful.bot_at hand_out
quiet = record { at = λ w. refl }

start_recovers_example :
    bots_lawful.bot_at (start client hand_out (tick ∷ done ∷ tick ∷ []) mixed) (bot_key orphan)
    ≡ synced bots_lawful.admit (bots_lawful.bot_at later) contracts (bot_key orphan)
start_recovers_example =
    start_recovers client hand_out bots_lawful 1 (tick ∷ []) contracts mixed later quiet refl
      recovered (bot_key orphan)
