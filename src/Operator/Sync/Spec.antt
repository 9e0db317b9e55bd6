-- ===== src/Operator/Sync/Spec.antt =====
-- What one pass of the syncer makes of the stored bots, with no call in sight.
use threadr.Common.{Bool, Option, none, some, List, [], ◌∷◌, map, if◌then◌else◌, ◌≡◌, deep_equal}
use threadr.Common.Maps.{StringMap, entries, insert, find, Found-discrete}
use threadr.Operator.Kube.{ObjectKey}
use threadr.Operator.Types.{ThreadrBot}
use threadr.Operator.ControlPlane.{BotContract}
use threadr.Operator.Sync.{
  contract_key, is_expected, key_eq, threadr_bot_synced_by_label, threadr_bot_synced_by_value,
}

abbrev pub Bots : Type 0
Bots = ObjectKey → Option ThreadrBot

abbrev pub put : Bots → ObjectKey → Option ThreadrBot → Bots
put bots k b j = if key_eq k j then b else bots j

abbrev pub IsSynced : ThreadrBot → Type 0
IsSynced b = find threadr_bot_synced_by_label b.metadata.labels ≡ some threadr_bot_synced_by_value

-- The labels of the contract, with the mark of the syncer and the id of the contract set among them.
abbrev pub marked_labels : BotContract → StringMap
marked_labels contract = some (
    insert "threadr.io/synced-by" "threadrbot-contract-syncer" (
      insert "threadr.io/control-plane-contract-id" contract.id
        (entries contract.contract.metadata.labels)))

-- What a contract makes of the bot under its key. With none there, it is the bot that the contract
-- describes, under the contract's namespace and name and with its labels. A bot that is there takes
-- over the contract's specification, labels and annotations, and keeps all else that it has.
abbrev pub applied : BotContract → Option ThreadrBot → ThreadrBot
applied contract none = record contract.contract {
  metadata = record contract.contract.metadata {
    namespace = contract.namespace;
    name = contract.deployment_name;
    labels = marked_labels contract;
  };
}
applied contract (some current) = record current {
  spec = contract.contract.spec;
  metadata = record current.metadata {
    labels = marked_labels contract;
    annotations = contract.contract.metadata.annotations;
  };
}

abbrev pub is_synced : ThreadrBot → Bool
is_synced b =
    deep_equal Found-discrete (find threadr_bot_synced_by_label b.metadata.labels)
      (some threadr_bot_synced_by_value)

abbrev pub unsynced : Option ThreadrBot → Option ThreadrBot
unsynced none = none
unsynced (some b) = if is_synced b then none else some b

-- `admit` is what the API server makes of a bot that it stores, such as filling in defaults.
module _ (admit : ThreadrBot → ThreadrBot) where
  abbrev pub apply_one : Bots → BotContract → Bots
  apply_one bots contract =
      put bots (contract_key contract)
        (some (admit (applied contract (bots (contract_key contract)))))

  -- The contracts are applied in order, so that of two for one key the later wins.
  unfoldable pub apply_all : Bots → List BotContract → Bots
  apply_all bots [] = bots
  apply_all bots (contract ∷ contracts) = apply_all (apply_one bots contract) contracts

  -- A bot with no contract goes if the syncer made it, and stays if not.
  unfoldable pub synced : Bots → List BotContract → Bots
  synced bots contracts key =
      if is_expected (map contract_key contracts) key
      then apply_all bots contracts key
      else unsynced (bots key)
