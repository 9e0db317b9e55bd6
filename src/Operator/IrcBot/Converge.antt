-- ===== src/Operator/IrcBot/Converge.antt =====
-- What a reconciliation of an IRCBot leaves in the cluster.
use threadr.Common.{
  String, Bool, List, ◌==◌, if◌then◌else◌, false, Option, none, some, ◌≡◌, sym, ap, ◌∙◌, Bool-cases,
  inl, inr, subst,
}
use threadr.Common.Maps.{StringMap}
use threadr.Common.Exec.{
  is_not_found, Result, ok, err, Exec, pure, attempt, bind-eq-ok, pure-eq-ok, attempt-eq-ok,
  lift-eq-ok, wrap-eq-ok, raise-ne-ok, bind_ok, attempt_result, ◌>>◌,
}
use threadr.Operator.Kube.{ObjectKey, Deployment, DeploymentSpec}
use threadr.Operator.Client.{Client, deployment_key}
use threadr.Operator.Client.Server.{DeploymentServer}
use threadr.Operator.Deployment.Drift.Managed.{Stores}
use threadr.Operator.Reconcile.{is_set}
use threadr.Operator.IrcBot.Running.{IsBotDeployment, stored-IsBotDeployment}
use threadr.Operator.IrcBot.{
  IrcClient, IrcBot, Job, irc_deployment, update_active_jobs, get_active_jobs, put_deployment,
  reconcile_bot_deployment, reconcile_irc_active, reconcile_irc_found, reconcile_irc_bot,
}

-- A status update answers the object as it was sent, but for its status: an object that was changed in
-- between is a conflict, which is an error. The controller reference is an owner and nothing else.
module _ {W : Type 0} (irc : IrcClient W) where
  pub record IrcServer : Type 0 where
    pub status_answer :
        (b live : IrcBot) (w w' : W)
        → irc.update_bot_status b w ≡ (ok live, w')
        → (live.metadata ≡ b.metadata) × (live.spec ≡ b.spec)
    pub controller_reference :
        (b : IrcBot) (d owned : Deployment)
        → irc.set_controller_reference b d ≡ ok owned
        → (o : Option String) × (owned ≡ record d { metadata = record d.metadata { owner = o } })

module _ {W : Type 0} (c : Client W) (irc : IrcClient W) (s : DeploymentServer c)
    (laws : IrcServer irc) where
  open s use {deployment_at}

  -- A deployment is stored under the key, and its specification is the one that was sent.
  abbrev Runs : W → ObjectKey → DeploymentSpec → Type 0
  Runs w key spec =
      (live : Deployment) × (deployment_at w key ≡ some live)
      × ((labels : StringMap) × (annotations : StringMap) × Stores labels annotations spec live)

  put_deployment-lands :
      (dep live : Deployment) (found : Result Deployment) (w v w' : W)
      → c.get_deployment (deployment_key dep) w ≡ (found, v)
      → put_deployment c irc dep found v ≡ (ok live, w')
      → Runs w' (deployment_key dep) dep.spec
  unfolding put_deployment
  put_deployment-lands dep live (ok found) w v w' read h =
      let (stored, named) = s.get_ok (deployment_key dep) found w v read in
      let (at_key, kept) = s.update_ok (record found { spec = dep.spec }) live v w' h in
      (
        live,
        ap (deployment_at w') (sym named) ∙ at_key,
        (found.metadata.labels, found.metadata.annotations, kept),
      )
  put_deployment-lands dep live (err e) w v w' read h = elim (Bool-cases (is_not_found e)) [
    | inl absent ↦
        let (at_key, kept) = s.create_ok dep live v w' (rw absent at h) in
        (live, at_key, (dep.metadata.labels, dep.metadata.annotations, kept))
    | inr other ↦ absurd (raise-ne-ok e v (wrap-eq-ok _ _ (rw other at h)))
  ]

  abbrev SentFor : IrcBot → W → Type 0
  SentFor bot w =
      Runs w (deployment_key (irc_deployment c.decimal bot)) (irc_deployment c.decimal bot).spec

  reconcile_bot_deployment-lands :
      (bot : IrcBot) (live : Deployment) (w w' : W)
      → reconcile_bot_deployment c irc bot w ≡ (ok live, w')
      → SentFor bot w'
  unfolding reconcile_bot_deployment
  reconcile_bot_deployment-lands bot live w w' h =
      let (dep, v, wrapped_ok, rest) = bind-eq-ok _ _ h in
      let (made, same) = lift-eq-ok (wrap-eq-ok _ _ wrapped_ok) in
      let (found, u, read, put) = bind-eq-ok _ _ rest in
      let (o, e) = laws.controller_reference bot (irc_deployment c.decimal bot) dep made in
      subst (λ (d : Deployment). Runs w' (deployment_key d) d.spec) e
        (put_deployment-lands dep live found v u w'
          (attempt-eq-ok (c.get_deployment (deployment_key dep)) read) put)

  -- The deployment depends on the bot's metadata and its specification, not on its status.
  abbrev SameBot : IrcBot → IrcBot → Type 0
  SameBot a b = (a.metadata ≡ b.metadata) × (a.spec ≡ b.spec)

  asked_of_same : (a b : IrcBot) (w : W) → SameBot a b → SentFor a w → SentFor b w
  unfolding irc_deployment
  asked_of_same a b w (meta, spec) h =
      let same : irc_deployment c.decimal a ≡ irc_deployment c.decimal b = λ i.
        irc_deployment c.decimal (record { metadata = meta i; spec = spec i; status = a.status }) in
      subst (λ (d : Deployment). Runs w (deployment_key d) d.spec) same h

  update_active_jobs-same :
      (bot live : IrcBot) (jobs : List Job) (w w' : W)
      → update_active_jobs irc bot jobs w ≡ (ok live, w')
      → SameBot live bot
  unfolding update_active_jobs
  update_active_jobs-same bot live jobs w w' h =
      elim (Bool-cases (bot.status.active_jobs == get_active_jobs jobs)) [
        | inl still ↦
            let (is, _) = pure-eq-ok (rw still at h) in
            (ap (λ (b : IrcBot). b.metadata) (sym is), ap (λ (b : IrcBot). b.spec) (sym is))
        | inr changed ↦ laws.status_answer _ live w w' (rw changed at h)
      ]

  reconcile_irc_active-lands :
      (bot : IrcBot) (live : Deployment) (w w' : W)
      → reconcile_irc_active c irc bot w ≡ (ok live, w')
      → SentFor bot w'
  unfolding reconcile_irc_active
  reconcile_irc_active-lands bot live w w' h =
      let (jobs, w1, listed, h1) = bind-eq-ok _ _ h in
      let (time, w2, read, h2) = bind-eq-ok _ _ h1 in
      let (seen, w3, stamped, h3) = bind-eq-ok _ _ h2 in
      let (counted, w4, updated, h4) = bind-eq-ok _ _ h3 in
      let (done, w5, cleaned, h5) = bind-eq-ok _ _ h4 in
      let (connected, w6, reported, h6) = bind-eq-ok _ _ h5 in
      let (m1, s1) = laws.status_answer _ seen w2 w3 stamped in
      let (m2, s2) = update_active_jobs-same seen counted jobs w3 w4 updated in
      let (m3, s3) = laws.status_answer _ connected w5 w6 reported in
      asked_of_same connected bot w' (m3 ∙ m2 ∙ m1, s3 ∙ s2 ∙ s1)
        (reconcile_bot_deployment-lands connected live w6 w' h6)

  by_guards :
      (deleted suspended : Bool) (m : Exec W (Unit {0})) (v w' : W)
      → deleted ≡ false
      → suspended ≡ false
      → (if deleted then pure tt else if suspended then pure tt else m) v ≡ (ok tt, w')
      → m v ≡ (ok tt, w')
  by_guards deleted suspended m v w' kept active h = rw (kept, active) at h

  -- A deployment of the bot is stored under the bot's own name.
  abbrev pub IsRunning : IrcBot → W → Type 0
  IsRunning bot w =
      (live : Deployment) × (deployment_at w
          (record { namespace = bot.metadata.namespace; name = bot.metadata.name })
        ≡ some live)
      × IsBotDeployment c.decimal bot live

  sent-IsRunning : (bot : IrcBot) (w : W) → SentFor bot w → IsRunning bot w
  unfolding irc_deployment
  sent-IsRunning bot w (live, stored, (labels, annotations, kept)) =
      (live, stored, stored-IsBotDeployment c.decimal bot labels annotations live kept)

  -- A reconciliation of an IRCBot that is neither being deleted nor suspended and that ends without
  -- error leaves a deployment in the cluster, under the bot's own name, of one pod with one container,
  -- which has the image of the bot's version and is told its server, port, channels and nickname.
  pub reconcile_irc_bot_converges :
      (request : ObjectKey) (bot : IrcBot) (w v w' : W)
      → irc.get_bot request w ≡ (ok bot, v)
      → bot.metadata.deletion_timestamp ≡ none
      → bot.spec.suspended ≡ false
      → reconcile_irc_bot c irc request w ≡ (ok tt, w')
      → IsRunning bot w'
  unfolding reconcile_irc_bot reconcile_irc_found
  reconcile_irc_bot_converges request bot w v w' got kept active h =
      let read = attempt_result (irc.get_bot request) got in
      let opened =
        sym (bind_ok (attempt (irc.get_bot request)) (reconcile_irc_found c irc) read) ∙ h in
      let ran =
        by_guards (is_set bot.metadata.deletion_timestamp) bot.spec.suspended
          (reconcile_irc_active c irc bot >> pure tt) v w' (ap is_set kept) active opened in
      let (live, x, done, over) = bind-eq-ok _ _ ran in
      let (unit_same, same) = pure-eq-ok over in
      sent-IsRunning bot w'
        (subst (SentFor bot) same (reconcile_irc_active-lands bot live v x done))
