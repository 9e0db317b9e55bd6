-- ===== src/Operator/Sync/Refine.antt =====
-- What one pass of the syncer does to the stored bots.
use threadr.Common.{false, List, map, ◌≡◌, ap, ◌∙◌, arith}
use mathlib.Core.Path.{ap₂}
use threadr.Common.Exec.{ok, Exec, bind-eq-ok, wrap-eq-ok}
use threadr.Common.Exec.Preserves.{Preserves, view-result}
use threadr.Operator.Kube.{ObjectKey}
use threadr.Operator.ControlPlane.{BotContract}
use threadr.Operator.Client.{Client}
use threadr.Operator.Client.Server.{BotServer}
use threadr.Operator.Sync.{
  contract_key, is_expected, apply_contracts, delete_orphaned_contracts, sync_once,
}
use threadr.Operator.Sync.Spec.{synced}
use threadr.Operator.Sync.Applied.{apply_all-unexpected, apply_contracts-lands}
use threadr.Operator.Sync.Tidied.{delete_orphaned_contracts-lands}

module _ {W : Type 0} (c : Client W) (s : BotServer c) where
  open s use {bot_at, admit}

  applied_and_tidied :
      (contracts : List BotContract) (u v w' : W)
      → apply_contracts c contracts u ≡ (ok tt, v)
      → delete_orphaned_contracts c (map contract_key contracts) v ≡ (ok tt, w')
      → (k : ObjectKey) → bot_at w' k ≡ synced admit (bot_at u) contracts k
  unfolding synced
  applied_and_tidied contracts u v w' made tidied k = ground (
    arith,
    delete_orphaned_contracts-lands c s (map contract_key contracts) v w' tidied k,
    ap (λ bots. bots k) (apply_contracts-lands c s contracts u v made),
    λ (e : is_expected (map contract_key contracts) k ≡ false).
        apply_all-unexpected admit (bot_at u) contracts k e,
  )

  -- A pass of the syncer that ends without error leaves, under every key, the bot that the contracts
  -- and the stored bots specify: the contracts applied in order, the bots that an earlier pass made
  -- and no contract asks for gone, and every other bot as it was.
  pub sync_once_refines :
      (list_bot_contracts : Exec W (List BotContract)) (contracts : List BotContract) (w v w' : W)
      → Preserves bot_at list_bot_contracts
      → list_bot_contracts w ≡ (ok contracts, v)
      → sync_once c list_bot_contracts w ≡ (ok tt, w')
      → (k : ObjectKey) → bot_at w' k ≡ synced admit (bot_at w) contracts k
  unfolding sync_once
  sync_once_refines list_bot_contracts contracts w v w' quiet listed h k =
      let (given, u, read, rest) = bind-eq-ok _ _ h in
      let (_, x, made, tidied) = bind-eq-ok _ _ rest in
      let same = view-result list_bot_contracts quiet read in
      let given_is : given ≡ contracts = cc (read, listed) in
      applied_and_tidied given u x w' made
        (wrap-eq-ok _ (delete_orphaned_contracts c (map contract_key given)) tidied) k
      ∙ ap₂ (λ bots cs. synced admit bots cs k) same given_is
