-- ===== src/Operator/Reconcile/Converge.antt =====
-- What a reconciliation leaves in the cluster.
use threadr.Common.{
  true, String, false, Option, none, some, List, [], ◌∷◌, ◌≡◌, refl, sym, ap, ◌∙◌, ◌⊎◌, inl, inr,
  ◌≢◌, length, ltb, Bool-cases, str_eq_iff, if◌then◌else◌, arith, subst,
}
use threadr.Common.Exec.{
  raise-ne-ok, is_not_found, Result, ok, err, bind-eq-ok, pure-eq-ok, attempt-eq-ok, lift-eq-ok,
  wrap-eq-ok,
}
use threadr.Operator.Kube.{ObjectKey, Deployment}
use threadr.Operator.Types.{ThreadrBot}
use threadr.Operator.Client.{Client, deployment_key}
use threadr.Operator.Client.Server.{DeploymentServer}
use threadr.Operator.Deployment.Desired.{desired_deployment}
use threadr.Operator.Deployment.Drift.{deployment_update_reasons}
use threadr.Operator.Deployment.Drift.Managed.{Managed, Persists}
use threadr.Operator.Deployment.Drift.Exact.{update_reasons_iff}
use threadr.Operator.Deployment.Laws.{persisted-Managed}
use threadr.Common.Exec.Preserves.{Preserves, view-result}
use threadr.Operator.Status.Quiet.{Quiet, update_status-Preserves}
use threadr.Operator.Status.{StatusReporter, update_threadr_bot_status}
use threadr.Operator.Reconcile.{
  is_deleted, overwritten, update_if_needed, apply_deployment, reconcile_live, reconcile_found,
  reconcile, reconcile_deleted, reconcile_bot, delete_found, delete_deployment_if_present,
}

nil_of_length : (rs : List String) → ltb 0 (length rs) ≡ false → rs ≡ []
nil_of_length [] h = refl
nil_of_length (r ∷ rs) h = ground arith

-- What a reconciliation does once its bot is read.
pub reconcile-bot :
    {W : Type 0} (c : Client W) (reporter : StatusReporter W) (request : ObjectKey)
    (bot : ThreadrBot) (w v w' : W)
    → c.get_bot request w ≡ (ok bot, v)
    → reconcile c reporter request w ≡ (ok tt, w')
    → (if is_deleted bot
          then reconcile_deleted c reporter bot (desired_deployment c.decimal bot)
          else reconcile_live c reporter bot (desired_deployment c.decimal bot))
        v
      ≡ (ok tt, w')
unfolding reconcile reconcile_found reconcile_bot
reconcile-bot {W = W} c reporter request bot w v w' got h =
    let (found, u, read, rest) = bind-eq-ok _ _ h in
    subst (λ p. reconcile_found c reporter p.0 p.1 ≡ (ok tt, w'))
      (sym (attempt-eq-ok (c.get_bot request) read) ∙ got) rest

pub is_deleted-false :
    (bot : ThreadrBot)
    → bot.spec.desired_state ≢ "deleted"
    → bot.metadata.deletion_timestamp ≡ none
    → is_deleted bot ≡ false
unfolding is_deleted
is_deleted-false bot wanted kept = ground (arith, str_eq_iff bot.spec.desired_state "deleted")

pub is_deleted-true :
    (bot : ThreadrBot)
    → (bot.spec.desired_state ≡ "deleted") ⊎ (bot.metadata.deletion_timestamp ≢ none)
    → is_deleted bot ≡ true
unfolding is_deleted
is_deleted-true bot h = ground (arith, str_eq_iff bot.spec.desired_state "deleted")

module _ {W : Type 0} (c : Client W) (reporter : StatusReporter W) (s : DeploymentServer c)
    (quiet : Quiet s.deployment_at reporter) where
  open s use {deployment_at}

  pub update_status-keeps :
      (bot : ThreadrBot) (d : Option Deployment) (phase : String)
      → Preserves deployment_at (update_threadr_bot_status c reporter bot d phase)
  update_status-keeps = update_status-Preserves c reporter deployment_at quiet s.status_keeps

  -- The deployment after the update, if one was needed, is stored, and has the managed fields that
  -- were asked for.
  update_if_needed-lands :
      (current owned live : Deployment) (w w' : W)
      → deployment_at w (deployment_key current) ≡ some current
      → update_if_needed c reporter current owned w ≡ (ok live, w')
      → (deployment_at w' (deployment_key current) ≡ some live)
        × (Managed live owned ⊎ Persists (overwritten current owned) live)
  unfolding update_if_needed
  update_if_needed-lands current owned live w w' stored h =
      elim (Bool-cases (ltb 0 (length (deployment_update_reasons current owned)))) [
        | inl drifted ↦
            let (at_key, kept) =
              s.update_ok (overwritten current owned) live w w' (rw drifted at h) in
            (at_key, inr kept)
        | inr same ↦
            let (is_live, still) = pure-eq-ok (rw same at h) in
            let reasons = nil_of_length (deployment_update_reasons current owned) same in
            (
              rw (← still, ← is_live) stored,
              inl (rw (← is_live) ((update_reasons_iff current owned).0 reasons)),
            )
      ]

  -- The cluster stores a deployment under the desired name with every managed field as desired.
  abbrev pub Realizes : W → Deployment → Type 0
  Realizes w desired =
      (live : Deployment) × (deployment_at w (deployment_key desired) ≡ some live)
      × Managed live desired

  module _ (bot : ThreadrBot) (o : Option String) where
    abbrev desired : Deployment
    desired = desired_deployment c.decimal bot

    abbrev owned_deployment : Deployment
    owned_deployment = record desired { metadata = record desired.metadata { owner = o } }

    created_lands :
        (live : Deployment) (w w' : W)
        → c.create_deployment owned_deployment w ≡ (ok live, w')
        → Realizes w' desired
    created_lands live w w' h =
        let (at_key, kept) = s.create_ok owned_deployment live w w' h in
        (live, at_key, persisted-Managed c.decimal bot live kept)

    pub updated_live :
        (current live : Deployment) (w w' : W)
        → deployment_at w (deployment_key desired) ≡ some current
        → deployment_key current ≡ deployment_key desired
        → update_if_needed c reporter current owned_deployment w ≡ (ok live, w')
        → (deployment_at w' (deployment_key desired) ≡ some live) × Managed live desired
    updated_live current live w w' stored named h =
        let (at_key, has) =
          update_if_needed-lands current owned_deployment live w w' (rw named stored) h in
        (
          rw named at at_key,
          elim has [ inl same ↦ same | inr kept ↦ persisted-Managed c.decimal bot live kept ],
        )

    status_lands :
        (d : Option Deployment) (phase : String) (w w' : W)
        → Realizes w desired
        → update_threadr_bot_status c reporter bot d phase w ≡ (ok tt, w')
        → Realizes w' desired
    status_lands d phase w w' (live, stored, managed) h =
        let same = view-result _ (update_status-keeps bot d phase) h in
        (live, ap (λ view. view (deployment_key desired)) same ∙ stored, managed)

    -- After the deployment is applied without error, it is as desired.
    apply-lands :
        (found : Result Deployment) (w w' : W)
        → ((d : Deployment)
            → found ≡ ok d
            → (deployment_at w (deployment_key desired) ≡ some d)
              × (deployment_key d ≡ deployment_key desired))
        → apply_deployment c reporter bot owned_deployment found w ≡ (ok tt, w')
        → Realizes w' desired
    unfolding apply_deployment
    apply-lands (ok current) w w' read h =
        let (live, v, updated, reported) = bind-eq-ok _ _ h in
        let (stored, named) = read current refl in
        let (at_key, managed) = updated_live current live w v stored named updated in
        status_lands _ _ v w' (live, at_key, managed) reported
    apply-lands (err e) w w' read h = elim (Bool-cases (is_not_found e)) [
      | inl absent ↦
          let (live, v, made, reported) = bind-eq-ok _ _ (rw absent at h) in
          status_lands _ _ v w' (created_lands live w v made) reported
      | inr other ↦ absurd (raise-ne-ok e w (rw other at h))
    ]

  reconcile_live-lands :
      (bot : ThreadrBot) (w w' : W)
      → reconcile_live c reporter bot (desired_deployment c.decimal bot) w ≡ (ok tt, w')
      → Realizes w' (desired_deployment c.decimal bot)
  unfolding reconcile_live
  reconcile_live-lands bot w w' h =
      let (owned, v, wrapped_ok, rest) = bind-eq-ok _ _ h in
      let (made, same) = lift-eq-ok (wrap-eq-ok _ _ wrapped_ok) in
      let (o, e) = s.controller_reference bot (desired_deployment c.decimal bot) owned made in
      let (found, u, read, applied) = bind-eq-ok _ _ (rw e at rest) in
      apply-lands bot o found u w'
        (λ d p. s.get_ok (deployment_key (owned_deployment bot o)) d v u (
          attempt-eq-ok (c.get_deployment (deployment_key (owned_deployment bot o))) read
          ∙ ap (λ r. (r, u)) p))
        applied

  -- If a reconciliation of a bot that is neither deleted nor being deleted ends without error, the
  -- cluster then stores, under the bot's deployment name, a deployment that has every managed field
  -- of the desired one.
  pub reconcile_converges :
      (request : ObjectKey) (bot : ThreadrBot) (w v w' : W)
      → c.get_bot request w ≡ (ok bot, v)
      → bot.spec.desired_state ≢ "deleted"
      → bot.metadata.deletion_timestamp ≡ none
      → reconcile c reporter request w ≡ (ok tt, w')
      → Realizes w' (desired_deployment c.decimal bot)
  reconcile_converges request bot w v w' got wanted kept h = reconcile_live-lands bot v w' (
      rw (is_deleted-false bot wanted kept) at
        (reconcile-bot {W = W} c reporter request bot w v w' got h))

  delete_found-lands :
      (key : ObjectKey) (found : Result Deployment) (u v w' : W)
      → c.get_deployment key u ≡ (found, v)
      → delete_found c reporter found v ≡ (ok tt, w')
      → deployment_at w' key ≡ none
  unfolding delete_found
  delete_found-lands key (ok d) u v w' read h =
      let (stored, named) = s.get_ok key d u v read in rw (← named) (s.delete_ok d v w' h)
  delete_found-lands key (err e) u v w' read h = elim (Bool-cases (is_not_found e)) [
    | inl absent ↦
        let (_, still) = pure-eq-ok (rw absent at h) in
        rw (← still) (s.get_not_found key e u v read absent)
    | inr other ↦ absurd (raise-ne-ok e v (rw other at h))
  ]

  reconcile_deleted-lands :
      (bot : ThreadrBot) (w w' : W)
      → reconcile_deleted c reporter bot (desired_deployment c.decimal bot) w ≡ (ok tt, w')
      → deployment_at w' (deployment_key (desired_deployment c.decimal bot)) ≡ none
  unfolding reconcile_deleted delete_deployment_if_present
  reconcile_deleted-lands bot w w' h =
      let (_, v, gone, reported) = bind-eq-ok _ _ h in
      let (found, u, read, deleted) = bind-eq-ok _ _ gone in
      let key = deployment_key (desired_deployment c.decimal bot) in
      let same = view-result _ (update_status-keeps bot none "deleting") reported in
      ap (λ view. view key) same
      ∙ delete_found-lands key found w u v (attempt-eq-ok (c.get_deployment key) read) deleted

  -- If a reconciliation of a bot that is to be deleted, or is being deleted, ends without error, no
  -- deployment is stored under the bot's deployment name any more.
  pub reconcile_deletes :
      (request : ObjectKey) (bot : ThreadrBot) (w v w' : W)
      → c.get_bot request w ≡ (ok bot, v)
      → (bot.spec.desired_state ≡ "deleted") ⊎ (bot.metadata.deletion_timestamp ≢ none)
      → reconcile c reporter request w ≡ (ok tt, w')
      → deployment_at w' (deployment_key (desired_deployment c.decimal bot)) ≡ none
  reconcile_deletes request bot w v w' got unwanted h = reconcile_deleted-lands bot v w' (
      rw (is_deleted-true bot unwanted) at
        (reconcile-bot {W = W} c reporter request bot w v w' got h))
