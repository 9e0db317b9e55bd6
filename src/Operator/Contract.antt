-- ===== src/Operator/Contract.antt =====
-- From a contract to its deployment: a pass of the syncer, and then a reconciliation of the contract's
-- bot.
pub mod Stays
use threadr.Common.{
  ℕ, String, true, false, Option, none, some, List, [], ◌∷◌, ◌++◌, map, ◌≡◌, ◌≢◌, refl, sym, ap,
  ◌∙◌, subst, deep_equal_iff, arith,
}
use threadr.Common.Maps.{StringMap}
use threadr.Common.Exec.{ok, Exec}
use threadr.Common.Exec.Preserves.{Preserves}
use threadr.Operator.Kube.{ObjectKey, ObjectKey-discrete, Deployment}
use threadr.Operator.Types.{ThreadrBot, ThreadrBotSpec, defaulted}
use threadr.Operator.ControlPlane.{BotContract}
use threadr.Operator.Client.{Client}
use threadr.Operator.Client.Server.{BotServer, DeploymentServer}
use threadr.Operator.Deployment.Desired.{
  desired_deployment, workload_labels, workload_container, container_name,
}
use threadr.Operator.Deployment.Laws.{desired_deployment_same, desired_deployment-defaulted}
use threadr.Operator.Status.{StatusReporter}
use threadr.Operator.Status.Quiet.{Quiet}
use threadr.Operator.Sync.{contract_key, contract_labels, desired_bot, is_expected, sync_once}
use threadr.Operator.Sync.Spec.{Bots, applied, apply_one, apply_all, synced}
use threadr.Operator.Sync.Applied.{apply_all-unexpected}
use threadr.Operator.Sync.Refine.{sync_once_refines}
use threadr.Operator.Reconcile.{reconcile}
use threadr.Operator.Reconcile.Converge.{Realizes, reconcile_converges}

key_expected :
    (contract : BotContract) (earlier later : List BotContract)
    → is_expected (map contract_key (earlier ++ contract ∷ later)) (contract_key contract) ≡ true
unfolding is_expected
key_expected contract [] later =
    rw ((deep_equal_iff ObjectKey-discrete (contract_key contract) (contract_key contract)).1 refl)
      refl
key_expected contract (c ∷ cs) later = ground (arith, key_expected contract cs later)

module _ (admit : ThreadrBot → ThreadrBot) where
  apply_all-append :
      (bots : Bots) (earlier later : List BotContract)
      → apply_all admit bots (earlier ++ later)
        ≡ apply_all admit (apply_all admit bots earlier) later
  unfolding apply_all
  apply_all-append bots [] later = refl
  apply_all-append bots (c ∷ cs) later = apply_all-append (apply_one admit bots c) cs later

  apply_all-cons :
      (bots : Bots) (contract : BotContract) (later : List BotContract)
      → apply_all admit bots (contract ∷ later)
        ≡ apply_all admit (apply_one admit bots contract) later
  unfolding apply_all
  apply_all-cons bots contract later = refl

  apply_one_at :
      (bots : Bots) (contract : BotContract)
      → apply_one admit bots contract (contract_key contract)
        ≡ some (admit (applied contract (bots (contract_key contract))))
  apply_one_at bots contract =
      rw
        ((deep_equal_iff ObjectKey-discrete (contract_key contract) (contract_key contract)).1 refl)
        refl

  -- The last contract for a key decides what is stored there.
  synced_last :
      (bots : Bots) (earlier later : List BotContract) (contract : BotContract)
      → is_expected (map contract_key later) (contract_key contract) ≡ false
      → (before : Option ThreadrBot) × (synced admit bots
            (earlier ++ contract ∷ later)
            (contract_key contract)
          ≡ some (admit (applied contract before)))
  unfolding synced
  synced_last bots earlier later contract last =
      let key = contract_key contract in
      let middle = apply_all admit bots earlier in
      (
        middle key,
        rw (key_expected contract earlier later) (
            ap (λ (bs : Bots). bs key)
              (apply_all-append bots earlier (contract ∷ later)
                ∙ apply_all-cons middle contract later)
            ∙ apply_all-unexpected admit (apply_one admit middle contract) later key last
            ∙ apply_one_at middle contract),
      )

applied_fields :
    (contract : BotContract) (before : Option ThreadrBot)
    → ((applied contract before).spec ≡ contract.contract.spec)
      × ((applied contract before).metadata.labels ≡ contract_labels contract)
unfolding contract_labels
applied_fields contract none = (refl, refl)
applied_fields contract (some current) = (refl, refl)

defaulted_spec : (a b : ThreadrBot) → a.spec ≡ b.spec → (defaulted a).spec ≡ (defaulted b).spec
defaulted_spec a b same =
    λ i. (defaulted (record { metadata = b.metadata; spec = same i; status = b.status })).spec

module _ {W : Type 0} (c : Client W) (reporter : StatusReporter W) (s : BotServer c)
    (d : DeploymentServer c) (still : Quiet d.deployment_at reporter) where
  open s use {bot_at, admit, admit_metadata}

  -- The bot that is stored for a contract after a pass, as far as its deployment depends on it.
  stored_for :
      (earlier later : List BotContract) (contract : BotContract) (bots : Bots) (b : ThreadrBot)
      → ((x : ThreadrBot) → (admit x).spec ≡ (defaulted x).spec)
      → is_expected (map contract_key later) (contract_key contract) ≡ false
      → synced admit bots (earlier ++ contract ∷ later) (contract_key contract) ≡ some b
      → (b.spec ≡ (defaulted contract.contract).spec)
        × (b.metadata.labels ≡ contract_labels contract)
  stored_for earlier later contract bots b complete last stored =
      let (before, made) = synced_last admit bots earlier later contract last in
      let sent = applied contract before in
      let (spec, labels) = applied_fields contract before in
      let same : admit sent ≡ b =
        ap (λ (o : Option ThreadrBot). elim o [ some x ↦ x | none ↦ b ]) (sym made ∙ stored) in
      (
        ap (λ (x : ThreadrBot). x.spec) (sym same)
            ∙ complete sent
            ∙ defaulted_spec sent contract.contract spec,
        ap (λ (x : ThreadrBot). x.metadata.labels) (sym same)
            ∙ ap (λ m. m.labels) (admit_metadata sent)
            ∙ labels,
      )

  -- If a pass of the syncer ends without error, and a later reconciliation of a contract's key, with
  -- that bot unchanged in between, does too, then the cluster stores, under the contract's deployment
  -- name, a deployment with every managed field of the one that the contract describes.
  pub contract_is_realized :
      (list_bot_contracts : Exec W (List BotContract)) (earlier later : List BotContract)
      (contract : BotContract) (b : ThreadrBot) (w v w' u x u' : W)
      → Preserves bot_at list_bot_contracts
      → ((a : ThreadrBot) → (admit a).spec ≡ (defaulted a).spec)
      → list_bot_contracts w ≡ (ok (earlier ++ contract ∷ later), v)
      → is_expected (map contract_key later) (contract_key contract) ≡ false
      → sync_once c list_bot_contracts w ≡ (ok tt, w')
      → bot_at u (contract_key contract) ≡ bot_at w' (contract_key contract)
      → c.get_bot (contract_key contract) u ≡ (ok b, x)
      → contract.contract.spec.desired_state ≢ "deleted"
      → b.metadata.deletion_timestamp ≡ none
      → reconcile c reporter (contract_key contract) u ≡ (ok tt, u')
      → Realizes c reporter d still u' (desired_deployment c.decimal (desired_bot contract))
  contract_is_realized list_bot_contracts earlier later contract b w v w' u x u' quiet complete
        listed last synced_ok unchanged got wanted kept reconciled =
      let key = contract_key contract in
      let (there, named) = s.get_ok key b u x got in
      let (spec, labels) = stored_for earlier later contract (bot_at w) b complete last (
        sym (
          sync_once_refines c s list_bot_contracts (earlier ++ contract ∷ later) w v w' quiet listed
            synced_ok key)
        ∙ sym unchanged
        ∙ there) in
      subst (λ (e : Deployment). Realizes c reporter d still u' e)
        (desired_deployment_same c.decimal b (defaulted (desired_bot contract)) labels
            (ap (λ (k : ObjectKey). k.namespace) named) spec
          ∙ desired_deployment-defaulted c.decimal (desired_bot contract))
        (reconcile_converges c reporter d still key b u x u' got
          (λ gone. wanted (ap (λ (t : ThreadrBotSpec). t.desired_state) (sym spec) ∙ gone)) kept
          reconciled)
