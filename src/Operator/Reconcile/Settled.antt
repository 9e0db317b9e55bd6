-- ===== src/Operator/Reconcile/Settled.antt =====
-- A reconciliation after one that has ended without error.
use threadr.Common.{
  ℕ, String, true, Option, none, some, ◌≡◌, ◌≢◌, refl, sym, ap, ◌∙◌, subst, Bool-cases, inl, inr,
}
use threadr.Common.Exec.{
  ok, gets, bind-eq-ok, pure-eq-ok, gets-eq-ok, attempt, bind_ok, attempt_result, wrap_lifted,
}
use threadr.Common.Exec.Preserves.{Preserves, if-Preserves, pure-Preserves, view-result}
use threadr.Operator.Kube.{ObjectKey, Deployment}
use threadr.Operator.Types.{ThreadrBot, ThreadrBotStatus, bot_key, read_back}
use threadr.Operator.Client.{Client, deployment_key}
use threadr.Operator.Client.Server.{DeploymentServer, BotServer, Isolates, StatusServer}
use threadr.Operator.Deployment.Desired.{desired_deployment}
use threadr.Operator.Deployment.Drift.Managed.{Managed}
use threadr.Operator.Status.{
  StatusReporter, phase_for, observed_status, threadr_bot_status_equivalent, stamped, write_status,
  update_threadr_bot_status,
}
use threadr.Operator.Status.Quiet.{Quiet, by_reporter}
use threadr.Operator.Status.Repeat.{observed-read_back}
use threadr.Operator.Reconcile.{
  update_if_needed, overwritten, apply_deployment, reconcile_live, reconcile,
}
use threadr.Operator.Reconcile.Converge.{
  reconcile-bot, is_deleted-false, updated_live, update_status-keeps,
}

-- The bot carries the status that is observed of this deployment.
abbrev pub IsToldOf : ThreadrBot → Deployment → Type 0
IsToldOf bot live =
    threadr_bot_status_equivalent bot.status (observed_status bot (some live) (phase_for bot live))
    ≡ true

-- A status apart, the bots are the same.
abbrev pub SameButStatus : ThreadrBot → ThreadrBot → Type 0
SameButStatus a b = (a.metadata ≡ b.metadata) × (a.spec ≡ b.spec)

module _ {W : Type 0} (c : Client W) (reporter : StatusReporter W) (b : BotServer c) where
  open b use {bot_at}

  module _ (status : StatusServer c bot_at) (untouched : Quiet bot_at reporter) where
    phase_same :
        (bot : ThreadrBot) (next : ThreadrBotStatus) (live : Deployment)
        → phase_for (record bot { status = next }) live ≡ phase_for bot live
    unfolding phase_for
    phase_same bot next live = refl

    stamped-IsToldOf :
        (bot : ThreadrBot) (live : Deployment) (time : ℕ)
        → IsToldOf
            (read_back
              (stamped c reporter bot (observed_status bot (some live) (phase_for bot live)) time))
            live
    stamped-IsToldOf bot live time =
        let observed = observed_status bot (some live) (phase_for bot live) in
        let told = read_back (stamped c reporter bot observed time) in
        subst
          (λ phase.
            threadr_bot_status_equivalent told.status (observed_status told (some live) phase)
            ≡ true)
          (sym (phase_same bot told.status live))
          (observed-read_back c reporter bot (some live) (phase_for bot live) time)

    -- What is stored after the update tells of what was observed.
    update_tells :
        (bot : ThreadrBot) (live : Deployment) (w w' : W)
        → bot_at w (bot_key bot) ≡ some bot
        → update_threadr_bot_status c reporter bot (some live) (phase_for bot live) w ≡ (ok tt, w')
        → (told : ThreadrBot) × (bot_at w' (bot_key bot) ≡ some told)
          × SameButStatus bot told
          × IsToldOf told live
    unfolding update_threadr_bot_status write_status
    update_tells bot live w w' stored h =
        let phase = phase_for bot live in
        let observed = observed_status bot (some live) phase in
        elim (Bool-cases (threadr_bot_status_equivalent bot.status observed)) [
          | inl same ↦
              let (_, still) = pure-eq-ok (rw same at h) in
              (bot, ap (λ v. bot_at v (bot_key bot)) (sym still) ∙ stored, (refl, refl), same)
          | inr changed ↦
              let (time, u, read, rest) = bind-eq-ok (gets c.now) _ (rw changed at h) in
              let (_, still) = gets-eq-ok c.now read in
              let (answered, v, wrote, reported) = bind-eq-ok _ _ rest in
              let sent = stamped c reporter bot observed time in
              (
                read_back sent,
                ap (λ view. view (bot_key bot))
                      (view-result _ (by_reporter reporter untouched answered) reported)
                    ∙ status.status_ok sent answered bot u v wrote
                        (ap (λ v. bot_at v (bot_key bot)) (sym still) ∙ stored) refl,
                (refl, refl),
                stamped-IsToldOf bot live time,
              )
        ]

    update_if_needed-keeps :
        (current owned : Deployment) → Preserves bot_at (update_if_needed c reporter current owned)
    unfolding update_if_needed
    update_if_needed-keeps current owned =
        if-Preserves _ _ _ (status.update_deployment_keeps (overwritten current owned))
          (pure-Preserves current)

    reconcile_live_read :
        (bot : ThreadrBot) (current owned : Deployment) (u v : W)
        → c.set_controller_reference bot (desired_deployment c.decimal bot) ≡ ok owned
        → c.get_deployment (deployment_key owned) u ≡ (ok current, v)
        → reconcile_live c reporter bot (desired_deployment c.decimal bot) u
          ≡ apply_deployment c reporter bot owned (ok current) v
    unfolding reconcile_live
    reconcile_live_read bot current owned u v own read =
        bind_ok _ _ (
          wrap_lifted "set controller reference"
            (c.set_controller_reference bot (desired_deployment c.decimal bot)) u own)
        ∙ bind_ok (attempt (c.get_deployment (deployment_key owned))) _ (attempt_result _ read)

    module _ (d : DeploymentServer c) (still : Quiet d.deployment_at reporter)
        (isolates : Isolates c d.deployment_at) where
      open d use {deployment_at}

      -- What a reconciliation that finds a deployment, and ends without error, leaves behind.
      pub record Settled (bot : ThreadrBot) (w : W) : Type 0 where
        pub live : Deployment
        pub told : ThreadrBot
        pub stored : deployment_at w (deployment_key (desired_deployment c.decimal bot)) ≡ some live
        pub managed : Managed live (desired_deployment c.decimal bot)
        pub told_at : bot_at w (bot_key bot) ≡ some told
        pub same : SameButStatus bot told
        pub tells : IsToldOf told live

      applied-Settled :
          (bot : ThreadrBot) (o : Option String) (current : Deployment) (v w' : W)
          → deployment_at v (deployment_key (desired_deployment c.decimal bot)) ≡ some current
          → deployment_key current ≡ deployment_key (desired_deployment c.decimal bot)
          → bot_at v (bot_key bot) ≡ some bot
          → apply_deployment c reporter bot
              (record (desired_deployment c.decimal bot) {
                metadata = record (desired_deployment c.decimal bot).metadata { owner = o };
              })
              (ok current)
              v
            ≡ (ok tt, w')
          → Settled bot w'
      unfolding apply_deployment
      applied-Settled bot o current v w' found named bot_there h =
          let desired = desired_deployment c.decimal bot in
          let (live, x, updated, reported) = bind-eq-ok _ _ h in
          let (stored, managed) =
            updated_live c reporter d still bot o current live v x found named updated in
          let bot_then =
            ap (λ view. view (bot_key bot))
              (view-result _ (update_if_needed-keeps current _) updated)
            ∙ bot_there in
          let (told, told_at, same, tells) = update_tells bot live x w' bot_then reported in
          record {
            live = live;
            told = told;
            stored =
                ap (λ view. view (deployment_key desired))
                  (view-result _
                    (update_status-keeps c reporter d still bot (some live) (phase_for bot live))
                    reported)
                ∙ stored;
            managed = managed;
            told_at = told_at;
            same = same;
            tells = tells;
          }

      -- The first reconciliation, once its two reads are known.
      pub reconciled-Settled :
          (request : ObjectKey) (bot : ThreadrBot) (current owned : Deployment) (w u v w' : W)
          → c.get_bot request w ≡ (ok bot, u)
          → bot.spec.desired_state ≢ "deleted"
          → bot.metadata.deletion_timestamp ≡ none
          → c.set_controller_reference bot (desired_deployment c.decimal bot) ≡ ok owned
          → c.get_deployment (deployment_key owned) u ≡ (ok current, v)
          → reconcile c reporter request w ≡ (ok tt, w')
          → Settled bot w'
      reconciled-Settled request bot current owned w u v w' got wanted kept own read h =
          let live_run =
            rw (is_deleted-false bot wanted kept) at
              (reconcile-bot c reporter request bot w u w' got h) in
          let (o, owner_only) =
            d.controller_reference bot (desired_deployment c.decimal bot) owned own in
          let same_key = ap deployment_key owner_only in
          let (there, named) = d.get_ok (deployment_key owned) current u v read in
          let (bot_stored, bot_named) = b.get_ok request bot w u got in
          let bot_then =
            ap (λ view. view (bot_key bot))
              (view-result _ (status.get_deployment_keeps (deployment_key owned)) read
                ∙ view-result _ (b.get_keeps request) got)
            ∙ ap (bot_at w) bot_named
            ∙ bot_stored in
          applied-Settled bot o current v w' (ap (deployment_at v) (sym same_key) ∙ there)
            (named ∙ same_key) bot_then
            (ap (λ (e : Deployment). apply_deployment c reporter bot e (ok current) v)
                (sym owner_only)
              ∙ sym (reconcile_live_read bot current owned u v own read)
              ∙ live_run)
