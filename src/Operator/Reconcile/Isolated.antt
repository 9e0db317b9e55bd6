-- ===== src/Operator/Reconcile/Isolated.antt =====
-- What a reconciliation leaves alone.
use threadr.Common.{
  String, Option, none, ◌≡◌, ◌≢◌, refl, sym, ap, ◌∙◌, length, ltb, Bool-cases, inl, inr,
}
use threadr.Common.Exec.{
  is_not_found, Result, ok, err, Exec, attempt, attempt-eq-ok, attempt_result, bind_ok,
}
use threadr.Common.Exec.Preserves.{Preserves}
use threadr.Common.Exec.Keeps.{
  Keeps, pure-Keeps, raise-Keeps, attempt-Keeps, bind-Keeps, bind_lifted-Keeps, bind_yields-Keeps,
}
use threadr.Operator.Kube.{ObjectKey, Deployment}
use threadr.Operator.Types.{ThreadrBot}
use threadr.Operator.Client.{Client, deployment_key}
use threadr.Operator.Client.Server.{DeploymentServer, Isolates}
use threadr.Operator.Deployment.Desired.{desired_deployment}
use threadr.Operator.Deployment.Drift.{deployment_update_reasons}
use threadr.Operator.Status.{StatusReporter, update_threadr_bot_status}
use threadr.Operator.Status.Quiet.{Quiet, update_status-Preserves}
use threadr.Operator.Reconcile.{
  is_deleted, overwritten, delete_found, delete_deployment_if_present, update_if_needed,
  apply_deployment, reconcile_deleted, reconcile_live, reconcile_bot, reconcile_found, reconcile,
}

module _ {W : Type 0} (c : Client W) (reporter : StatusReporter W) (s : DeploymentServer c)
    (quiet : Quiet s.deployment_at reporter) (isolates : Isolates c s.deployment_at) where
  open s use {deployment_at}

  module _ (j : ObjectKey) (x : Option Deployment) where
    -- This is stored under the other name.
    abbrev Other : W → Type 0
    Other w = deployment_at w j ≡ x

    all_kept : {A : Type 0} (m : Exec W A) → Preserves deployment_at m → Keeps Other m
    all_kept m k = record { at = λ w h. ap (λ view. view j) (k.at w) ∙ h }

    name_kept : {A : Type 0} (m : Exec W A) → Preserves (λ w. deployment_at w j) m → Keeps Other m
    name_kept m k = record { at = λ w h. k.at w ∙ h }

    status_kept :
        (bot : ThreadrBot) (d : Option Deployment) (phase : String)
        → Keeps Other (update_threadr_bot_status c reporter bot d phase)
    status_kept bot d phase =
        all_kept _
          (update_status-Preserves c reporter deployment_at quiet s.status_keeps bot d phase)

    -- A read for this name answers a deployment of this name.
    abbrev Named : ObjectKey → Result Deployment → Type 0
    Named key found = (d : Deployment) → found ≡ ok d → deployment_key d ≡ key

    read-Named :
        (key : ObjectKey) (w w' : W) (found : Result Deployment)
        → attempt (c.get_deployment key) w ≡ (ok found, w')
        → Named key found
    read-Named key w w' found read d is_d =
        (s.get_ok key d w w' (attempt-eq-ok (c.get_deployment key) read ∙ ap (λ r. (r, w')) is_d)).1

    read_kept : (key : ObjectKey) → Keeps Other (attempt (c.get_deployment key))
    read_kept key = attempt-Keeps _ (all_kept _ (isolates.get_keeps key))

    module _ (key : ObjectKey) (apart : key ≢ j) where
      delete_found-Keeps :
          (found : Result Deployment)
          → Named key found
          → Keeps Other (delete_found c reporter found)
      unfolding delete_found
      delete_found-Keeps (ok d) named =
          name_kept _ (isolates.delete_keeps d j (λ same. apart (sym (named d refl) ∙ same)))
      delete_found-Keeps (err e) named = elim (Bool-cases (is_not_found e)) [
        | inl absent ↦ rw absent (pure-Keeps tt)
        | inr other ↦ rw other (raise-Keeps e)
      ]

      delete_if_present-Keeps : Keeps Other (delete_deployment_if_present c reporter key)
      unfolding delete_deployment_if_present
      delete_if_present-Keeps =
          bind_yields-Keeps _ _ (Named key) (read_kept key) (read-Named key) delete_found-Keeps

      update_if_needed-Keeps :
          (current owned : Deployment)
          → deployment_key current ≡ key
          → Keeps Other (update_if_needed c reporter current owned)
      unfolding update_if_needed
      update_if_needed-Keeps current owned named =
          elim (Bool-cases (ltb 0 (length (deployment_update_reasons current owned)))) [
            | inl drifted ↦ rw drifted (
                name_kept _ (
                  isolates.update_keeps (overwritten current owned) j
                    (λ same. apart (sym named ∙ same))))
            | inr same ↦ rw same (pure-Keeps current)
          ]

      apply_deployment-Keeps :
          (bot : ThreadrBot) (owned : Deployment) (found : Result Deployment)
          → deployment_key owned ≡ key
          → Named key found
          → Keeps Other (apply_deployment c reporter bot owned found)
      unfolding apply_deployment
      apply_deployment-Keeps bot owned (ok current) is_key named =
          bind-Keeps _ _ (update_if_needed-Keeps current owned (named current refl))
            λ live. status_kept bot _ _
      apply_deployment-Keeps bot owned (err e) is_key named = elim (Bool-cases (is_not_found e)) [
        | inl absent ↦ rw absent (
            bind-Keeps _ _
              (name_kept _ (isolates.create_keeps owned j (λ same. apart (sym is_key ∙ same))))
              λ created. status_kept bot _ _)
        | inr other ↦ rw other (raise-Keeps e)
      ]

    reconcile_live-Keeps :
        (bot : ThreadrBot)
        → deployment_key (desired_deployment c.decimal bot) ≢ j
        → Keeps Other (reconcile_live c reporter bot (desired_deployment c.decimal bot))
    unfolding reconcile_live
    reconcile_live-Keeps bot apart =
        let desired = desired_deployment c.decimal bot in
        bind_lifted-Keeps _ (c.set_controller_reference bot desired) _ λ owned made.
          let (o, owner_only) = s.controller_reference bot desired owned made in
          let same_key : deployment_key owned ≡ deployment_key desired =
            ap deployment_key owner_only in
          bind_yields-Keeps _ _ (Named (deployment_key owned)) (read_kept (deployment_key owned))
            (read-Named (deployment_key owned))
            λ found named.
              apply_deployment-Keeps (deployment_key owned) (λ clash. apart (sym same_key ∙ clash))
                bot owned found refl named

    reconcile_bot-Keeps :
        (bot : ThreadrBot)
        → deployment_key (desired_deployment c.decimal bot) ≢ j
        → Keeps Other (reconcile_bot c reporter bot)
    unfolding reconcile_bot reconcile_deleted
    reconcile_bot-Keeps bot apart =
        let key = deployment_key (desired_deployment c.decimal bot) in
        elim (Bool-cases (is_deleted bot)) [
          | inl deleted ↦
              rw deleted
                (bind-Keeps _ _ (delete_if_present-Keeps key apart) λ _. status_kept bot none _)
          | inr live ↦ rw live (reconcile_live-Keeps bot apart)
        ]

    reconcile_found-Keeps :
        (found : Result ThreadrBot)
        → ((bot : ThreadrBot)
            → found ≡ ok bot
            → deployment_key (desired_deployment c.decimal bot) ≢ j)
        → Keeps Other (reconcile_found c reporter found)
    unfolding reconcile_found
    reconcile_found-Keeps (ok bot) apart = reconcile_bot-Keeps bot (apart bot refl)
    reconcile_found-Keeps (err e) apart = elim (Bool-cases (is_not_found e)) [
      | inl absent ↦ rw absent (pure-Keeps tt)
      | inr other ↦ rw other (raise-Keeps e)
    ]

  -- Whatever becomes of a reconciliation, it leaves every deployment alone that does not stand under
  -- the name of the deployment of the bot that it has read: also one that fails half-way.
  pub reconcile_leaves_others :
      (request j : ObjectKey) (w : W)
      → ((bot : ThreadrBot) (v : W)
          → c.get_bot request w ≡ (ok bot, v)
          → deployment_key (desired_deployment c.decimal bot) ≢ j)
      → deployment_at (reconcile c reporter request w).1 j ≡ deployment_at w j
  unfolding reconcile
  reconcile_leaves_others request j w apart =
      let (found, v) = c.get_bot request w in
      let read =
        bind_ok (attempt (c.get_bot request)) (reconcile_found c reporter)
          (attempt_result (c.get_bot request) refl) in
      let kept =
        reconcile_found-Keeps j (deployment_at w j) found
          (λ bot is_bot. apart bot v (λ i. (is_bot i, v))) in
      ap (λ r. deployment_at r.1 j) read
      ∙ kept.at v (ap (λ view. view j) ((isolates.get_bot_keeps request).at w))
