-- ===== src/Operator/Smoke.antt =====
-- cmd/threadrbot-smoke/main.go: a syncer that is handed the contracts of one target only.
pub mod Wait
pub mod Run
use threadr.Common.{
  String, Bool, Option, true, false, none, List, [], ◌∷◌, map, ◌&&◌, not, ◌≡◌, ◌≢◌, ◌⊎◌, refl, sym,
  ap, ◌∙◌, if◌then◌else◌, str_eq, str_eq_iff, arith, deep_equal_iff, Bool-cases, inl, inr, subst,
}
use threadr.Common.Exec.{ok, Exec, pure, bind-eq-ok, pure-eq-ok, ◌>>=◌}
use threadr.Common.Exec.Preserves.{Preserves, preserves_rules}
use threadr.Operator.Kube.{ObjectKey, ObjectKey-discrete}
use threadr.Operator.Types.{ThreadrBot}
use threadr.Operator.ControlPlane.{BotContract}
use threadr.Operator.Client.{Client}
use threadr.Operator.Client.Server.{BotServer}
use threadr.Operator.Sync.{contract_key, is_expected, key_eq, sync_once}
use threadr.Operator.Sync.Spec.{synced}
use threadr.Operator.Sync.Refine.{sync_once_refines}

pub record SmokeTarget : Type 0 where
  pub namespace : String
  pub deployment_name : String

-- The loop of `ListBotContracts`, with its two `continue`s.
unfoldable pub keep_matching : SmokeTarget → List BotContract → List BotContract
keep_matching target [] = []
keep_matching target (contract ∷ contracts) =
    let rest = keep_matching target contracts in
    if not (str_eq target.namespace "") && not (str_eq contract.namespace target.namespace)
    then rest
    else if not (str_eq target.deployment_name "")
        && not (str_eq contract.deployment_name target.deployment_name)
    then rest
    else contract ∷ rest

unfoldable pub filtered_list_bot_contracts :
    {W : Type 0} → Exec W (List BotContract) → SmokeTarget → Exec W (List BotContract)
filtered_list_bot_contracts inner target = do
  contracts ← inner
  pure (keep_matching target contracts)

-- An empty field of the target matches everything.
abbrev pub Matches : SmokeTarget → ObjectKey → Type 0
Matches target key =
    ((target.namespace ≡ "") ⊎ (key.namespace ≡ target.namespace))
    × ((target.deployment_name ≡ "") ⊎ (key.name ≡ target.deployment_name))

-- A key of the contracts that are kept is one of the rest, or the kept head's.
kept_head :
    (elsewhere otherwise : Bool) (contract : BotContract) (rest : List BotContract)
    (key : ObjectKey)
    → is_expected
        (map contract_key (if elsewhere then rest else if otherwise then rest else contract ∷ rest))
        key
      ≡ true
    → (is_expected (map contract_key rest) key ≡ true)
      ⊎ ((elsewhere ≡ false) × (otherwise ≡ false) × (key_eq (contract_key contract) key ≡ true))
unfolding is_expected
kept_head true otherwise contract rest key h = inl h
kept_head false true contract rest key h = inl h
kept_head false false contract rest key h = ground arith

pub not_skipped :
    (target : SmokeTarget) (key : ObjectKey)
    → (not (str_eq target.namespace "") && not (str_eq key.namespace target.namespace)) ≡ false
    → (not (str_eq target.deployment_name "") && not (str_eq key.name target.deployment_name))
      ≡ false
    → Matches target key
not_skipped target key here this = ground (
  arith,
  str_eq_iff target.namespace "",
  str_eq_iff key.namespace target.namespace,
  str_eq_iff target.deployment_name "",
  str_eq_iff key.name target.deployment_name,
)

none_expected : (key : ObjectKey) → is_expected [] key ≢ true
unfolding is_expected
none_expected key h = cc

keep_matching-Matches :
    (target : SmokeTarget) (contracts : List BotContract) (key : ObjectKey)
    → is_expected (map contract_key (keep_matching target contracts)) key ≡ true
    → Matches target key
unfolding keep_matching
keep_matching-Matches target [] key h = absurd (none_expected key h)
keep_matching-Matches target (contract ∷ contracts) key h =
    elim (kept_head _ _ contract (keep_matching target contracts) key h) [
      | inl later ↦ keep_matching-Matches target contracts key later
      | inr (here, this, same) ↦
          subst (Matches target) ((deep_equal_iff ObjectKey-discrete _ _).0 same)
            (not_skipped target (contract_key contract) here this)
    ]

module _ {W : Type 0} (c : Client W) (s : BotServer c) where
  open s use {bot_at, admit}

  filtered-Preserves :
      (inner : Exec W (List BotContract)) (target : SmokeTarget)
      → Preserves bot_at inner
      → Preserves bot_at (filtered_list_bot_contracts inner target)
  unfolding filtered_list_bot_contracts
  filtered-Preserves inner target quiet = search (preserves_rules, quiet)

  filtered-eq-ok :
      (inner : Exec W (List BotContract)) (target : SmokeTarget) (given : List BotContract)
      (w v : W)
      → filtered_list_bot_contracts inner target w ≡ (ok given, v)
      → (contracts : List BotContract) × (keep_matching target contracts ≡ given)
  unfolding filtered_list_bot_contracts
  filtered-eq-ok inner target given w v h =
      let (contracts, u, read, done) = bind-eq-ok _ _ h in
      let (kept, still) = pure-eq-ok done in (contracts, kept)

  not_made :
      (contracts : List BotContract) (target : SmokeTarget) (bots : ObjectKey → Option ThreadrBot)
      (key : ObjectKey)
      → ¬ Matches target key
      → bots key ≡ none
      → synced admit bots (keep_matching target contracts) key ≡ none
  unfolding synced
  not_made contracts target bots key other absent =
      elim (Bool-cases (is_expected (map contract_key (keep_matching target contracts)) key)) [
        | inl there ↦ absurd (other (keep_matching-Matches target contracts key there))
        | inr missing ↦ rw (missing, absent) refl
      ]

  -- A smoke run makes no bot but its target's: a pass of the syncer over the filtered contracts that
  -- ends without error leaves a key empty that was empty before and that the target does not match.
  pub smoke_makes_target_only :
      (inner : Exec W (List BotContract)) (target : SmokeTarget) (w w' : W) (key : ObjectKey)
      → Preserves bot_at inner
      → ¬ Matches target key
      → bot_at w key ≡ none
      → sync_once c (filtered_list_bot_contracts inner target) w ≡ (ok tt, w')
      → bot_at w' key ≡ none
  unfolding sync_once
  smoke_makes_target_only inner target w w' key quiet other absent h =
      let (given, u, read, rest) = bind-eq-ok _ _ h in
      let (contracts, kept) = filtered-eq-ok inner target given w u read in
      sync_once_refines c s (filtered_list_bot_contracts inner target) given w u w'
        (filtered-Preserves inner target quiet) read h key
      ∙ ap (λ cs. synced admit (bot_at w) cs key) (sym kept)
      ∙ not_made contracts target (bot_at w) key other absent
