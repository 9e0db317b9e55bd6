-- ===== src/Operator/Sync.antt =====
-- internal/controller/threadrbot_contract_syncer.go: one pass of the contract syncer.
pub mod Spec
pub mod Applied
pub mod Tidied
pub mod Refine
pub mod Loop
use threadr.Common.{
  String, Bool, true, false, Option, none, some, List, [], ◌∷◌, ◌||◌, not, if◌then◌else◌, str_eq,
  map, deep_equal,
}
use threadr.Common.Maps.{StringMap, Entries, entries, insert}
use threadr.Common.Exec.{
  Err, is_not_found, Result, ok, err, Exec, pure, raise, attempt, wrap, ◌>>=◌, ◌>>◌,
}
use threadr.Operator.Kube.{ObjectKey, ObjectKey-discrete}
use threadr.Operator.Types.{ThreadrBot, bot_key}
use threadr.Operator.ControlPlane.{BotContract}
use threadr.Operator.Client.{Client}
use Prim.Native.String.{◌++◌ as str_append}

abbrev pub threadr_bot_synced_by_label : String
threadr_bot_synced_by_label = "threadr.io/synced-by"

abbrev pub threadr_bot_synced_by_value : String
threadr_bot_synced_by_value = "threadrbot-contract-syncer"

abbrev pub threadr_bot_control_plane_contract_label : String
threadr_bot_control_plane_contract_label = "threadr.io/control-plane-contract-id"

-- Membership in the set `expected`, kept as the list of the keys that were put into it.
abbrev pub key_eq : ObjectKey → ObjectKey → Bool
key_eq a b = deep_equal ObjectKey-discrete a b

unfoldable pub is_expected : List ObjectKey → ObjectKey → Bool
unfolding ObjectKey-discrete
is_expected [] key = false
is_expected (k ∷ ks) key = key_eq k key || is_expected ks key

abbrev pub contract_key : BotContract → ObjectKey
contract_key contract = record { namespace = contract.namespace; name = contract.deployment_name }

unfoldable pub contract_labels : BotContract → StringMap
unfolding insert
contract_labels contract = some (
    insert threadr_bot_synced_by_label threadr_bot_synced_by_value (
      insert threadr_bot_control_plane_contract_label contract.id
        (entries contract.contract.metadata.labels)))

-- The copy of the contract's bot that is sent: its name, its namespace and two labels are set.
abbrev pub desired_bot : BotContract → ThreadrBot
desired_bot contract = record contract.contract {
  metadata = record contract.contract.metadata {
    namespace = contract.namespace;
    name = contract.deployment_name;
    labels = contract_labels contract;
  };
}

-- The fields of a bot that is there already which the contract overwrites.
abbrev pub overwrite_bot : ThreadrBot → ThreadrBot → ThreadrBot
overwrite_bot current desired = record current {
  spec = desired.spec;
  metadata = record current.metadata {
    labels = desired.metadata.labels;
    annotations = desired.metadata.annotations;
  };
}

module _ {W : Type 0} (c : Client W) where
  unfoldable pub namespace_found : String → Result (Unit {0}) → Exec W (Unit {0})
  namespace_found namespace (ok current) = pure tt
  namespace_found namespace (err e) =
      if is_not_found e then c.create_namespace namespace else raise e

  unfoldable pub ensure_namespace : String → Exec W (Unit {0})
  ensure_namespace namespace =
      if str_eq namespace ""
      then pure tt
      else (do found ← attempt (c.get_namespace namespace); namespace_found namespace found)

  -- The `switch` on what the read of the bot gave.
  unfoldable pub put_bot : ThreadrBot → Result ThreadrBot → Exec W ThreadrBot
  put_bot desired (ok current) = c.update_bot (overwrite_bot current desired)
  put_bot desired (err e) = if is_not_found e then c.create_bot desired else raise e

  unfoldable pub apply_contract : BotContract → Exec W ThreadrBot
  apply_contract contract = do
    ensure_namespace (desired_bot contract).metadata.namespace
    found ← attempt (c.get_bot (bot_key (desired_bot contract)))
    put_bot (desired_bot contract) found

  unfoldable pub apply_contracts : List BotContract → Exec W (Unit {0})
  apply_contracts [] = pure tt
  apply_contracts (contract ∷ contracts) = do
    wrap (str_append "apply contract " contract.id) (apply_contract contract)
    apply_contracts contracts

  -- An orphan that is gone already is no error.
  unfoldable pub orphan_deleted : Result (Unit {0}) → Exec W (Unit {0})
  orphan_deleted (ok done) = pure tt
  orphan_deleted (err e) = if not (is_not_found e) then raise e else pure tt

  unfoldable pub delete_orphan : ThreadrBot → Exec W (Unit {0})
  delete_orphan bot = do outcome ← attempt (c.delete_bot bot); orphan_deleted outcome

  unfoldable pub delete_unexpected : List ObjectKey → List ThreadrBot → Exec W (Unit {0})
  delete_unexpected expected [] = pure tt
  delete_unexpected expected (bot ∷ bots) = do
    if is_expected expected (bot_key bot) then pure tt else delete_orphan bot
    delete_unexpected expected bots

  unfoldable pub delete_orphaned_contracts : List ObjectKey → Exec W (Unit {0})
  delete_orphaned_contracts expected = do
    existing ← c.list_bots threadr_bot_synced_by_label threadr_bot_synced_by_value
    delete_unexpected expected existing

  -- `list_bot_contracts` is the contract client.
  unfoldable pub sync_once : Exec W (List BotContract) → Exec W (Unit {0})
  sync_once list_bot_contracts = do
    contracts ← list_bot_contracts
    apply_contracts contracts
    wrap "delete orphaned contracts" (delete_orphaned_contracts (map contract_key contracts))
