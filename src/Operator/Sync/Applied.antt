-- ===== src/Operator/Sync/Applied.antt =====
-- What applying the contracts does to the stored bots.
use threadr.Common.{
  String, Bool, true, false, Option, some, List, [], ◌∷◌, ◌||◌, map, ◌≡◌, refl, sym, ap, ◌∙◌,
  Bool-cases, arith, inl, inr,
}
use mathlib.Core.Path.{fun_ext}
use threadr.Common.Exec.{
  is_not_found, Result, ok, err, bind-eq-ok, pure-eq-ok, attempt-eq-ok, wrap-eq-ok, raise-ne-ok,
}
use threadr.Common.Exec.Preserves.{Preserves, view-result, preserves_rules}
use threadr.Operator.Kube.{ObjectKey}
use threadr.Operator.Types.{ThreadrBot, bot_key}
use threadr.Operator.ControlPlane.{BotContract}
use threadr.Operator.Client.{Client}
use threadr.Operator.Client.Server.{BotServer}
use threadr.Operator.Sync.{
  contract_key, desired_bot, overwrite_bot, is_expected, key_eq, namespace_found, ensure_namespace,
  contract_labels, put_bot, apply_contract, apply_contracts,
}
use threadr.Operator.Sync.Spec.{Bots, put, applied, apply_one, apply_all}

-- Contracts for other keys leave a key alone.
pub apply_all-unexpected :
    (admit : ThreadrBot → ThreadrBot) (bots : Bots) (contracts : List BotContract) (k : ObjectKey)
    → is_expected (map contract_key contracts) k ≡ false
    → apply_all admit bots contracts k ≡ bots k
unfolding apply_all is_expected
apply_all-unexpected admit bots [] k h = refl
apply_all-unexpected admit bots (contract ∷ contracts) k h =
    elim (Bool-cases (key_eq (contract_key contract) k)) [
      | inl same ↦ absurd (both _ same h)
      | inr other ↦
          apply_all-unexpected admit (apply_one admit bots contract) contracts k (rw other at h)
          ∙ rw other
    ]
  where
    both :
        (b : Bool)
        → key_eq (contract_key contract) k ≡ true
        → (key_eq (contract_key contract) k || b) ≡ false
        → ⊥
    both b p q = ground arith

module _ {W : Type 0} (c : Client W) (s : BotServer c) where
  open s use {bot_at, admit}

  namespace_found-keeps :
      (n : String) (r : Result (Unit {0})) → Preserves bot_at (namespace_found c n r)
  unfolding namespace_found
  namespace_found-keeps n (ok current) = search preserves_rules
  namespace_found-keeps n (err e) = search (preserves_rules, s.namespace_create_keeps)

  ensure_namespace-keeps : (n : String) → Preserves bot_at (ensure_namespace c n)
  unfolding ensure_namespace
  ensure_namespace-keeps n = search (preserves_rules, s.namespace_get_keeps, namespace_found-keeps)

  put_bot-lands :
      (contract : BotContract) (found : Result ThreadrBot) (live : ThreadrBot) (w v w' : W)
      → c.get_bot (contract_key contract) w ≡ (found, v)
      → put_bot c (desired_bot contract) found v ≡ (ok live, w')
      → bot_at w' ≡ apply_one admit (bot_at w) contract
  unfolding put_bot contract_labels
  put_bot-lands contract (ok current) live w v w' read h =
      let key = contract_key contract in
      let next : Option ThreadrBot = some (admit (overwrite_bot current (desired_bot contract))) in
      let (stored, named) = s.get_ok key current w v read in
      let same = view-result (c.get_bot key) (s.get_keeps key) read in
      fun_ext (s.update_ok (overwrite_bot current (desired_bot contract)) live v w' h)
      ∙ ap (λ bots. put bots (bot_key current) next) same
      ∙ ap (λ k. put (bot_at w) k next) named
      ∙ ap (λ o. put (bot_at w) key (some (admit (applied contract o)))) (sym stored)
  put_bot-lands contract (err e) live w v w' read h = elim (Bool-cases (is_not_found e)) [
    | inl absent ↦
        let key = contract_key contract in
        let next : Option ThreadrBot = some (admit (desired_bot contract)) in
        let gone = s.get_not_found key e w v read absent in
        let same = view-result (c.get_bot key) (s.get_keeps key) read in
        fun_ext (s.create_ok (desired_bot contract) live v w' (rw absent at h))
        ∙ ap (λ bots. put bots key next) same
        ∙ ap (λ o. put (bot_at w) key (some (admit (applied contract o)))) (sym gone)
    | inr other ↦ absurd (raise-ne-ok e v (rw other at h))
  ]

  apply_contract-lands :
      (contract : BotContract) (live : ThreadrBot) (w w' : W)
      → apply_contract c contract w ≡ (ok live, w')
      → bot_at w' ≡ apply_one admit (bot_at w) contract
  unfolding apply_contract
  apply_contract-lands contract live w w' h =
      let (_, u, ready, rest) = bind-eq-ok _ _ h in
      let (found, v, read, done) = bind-eq-ok _ _ rest in
      let same = view-result _ (ensure_namespace-keeps contract.namespace) ready in
      put_bot-lands contract found live u v w'
        (attempt-eq-ok (c.get_bot (contract_key contract)) read) done
      ∙ ap (λ bots. apply_one admit bots contract) same

  pub apply_contracts-lands :
      (contracts : List BotContract) (w w' : W)
      → apply_contracts c contracts w ≡ (ok tt, w')
      → bot_at w' ≡ apply_all admit (bot_at w) contracts
  unfolding apply_contracts apply_all
  apply_contracts-lands [] w w' h = let (_, still) = pure-eq-ok h in ap bot_at (sym still)
  apply_contracts-lands (contract ∷ contracts) w w' h =
      let (live, v, first, rest) = bind-eq-ok _ _ h in
      apply_contracts-lands contracts v w' rest
      ∙ ap (λ bots. apply_all admit bots contracts)
          (apply_contract-lands contract live w v (wrap-eq-ok _ (apply_contract c contract) first))
