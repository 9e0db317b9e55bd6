-- ===== src/Operator/Tests/IrcBots.antt =====
-- The reconciler of IRCBots.
use threadr.Common.{
  ℕ, String, Bool, false, none, some, List, [], ◌∷◌, ◌≡◌, refl, ap, sym, if◌then◌else◌, ltb, length,
}
use threadr.Common.Exec.{ok, pure, is_not_found, ◌>>=◌}
use threadr.Operator.Kube.{ObjectKey}
use threadr.Operator.Cluster.{Cluster, empty, client}
use threadr.Operator.Cluster.Deployments.{deployments_lawful}
use threadr.Operator.IrcBot.{
  IrcBot, IrcBotSpec, IrcClient, Job, irc_deployment, put_deployment, reconcile_bot_deployment,
  update_active_jobs, get_active_jobs, count_active, cleanup_from, cleanup_old_jobs,
  reconcile_irc_active, reconcile_irc_found, reconcile_irc_bot,
}
use threadr.Operator.IrcBot.Cleanup.{delete_each, cleanup_all_or_none}
use threadr.Operator.IrcBot.Converge.{IrcServer, IsRunning, reconcile_irc_bot_converges}
use threadr.Operator.Tests.Samples.{metadata}

abbrev spec_of : Bool → IrcBotSpec
spec_of suspended = record {
  server = "irc.example.org";
  port = 6697;
  channels = "#go" ∷ "#rust" ∷ [];
  nick = "threadr";
  suspended = suspended;
  history_limit = 1;
  image_version = "v1";
  instance_id = "i1";
}

abbrev irc_bot : Bool → IrcBot
irc_bot suspended = record {
  metadata = metadata "bots" "chat" none;
  spec = spec_of suspended;
  status = record { connected = false; last_message_time = 0; active_jobs = 0 };
}

abbrev job : String → ℕ → Job
job name active = record { metadata = metadata "bots" name none; active = active }

abbrev jobs : List Job
jobs = job "old" 0 ∷ job "new" 1 ∷ []

-- Calls that all succeed and leave the cluster of deployments alone.
abbrev irc_client : Bool → IrcClient Cluster
irc_client suspended = record {
  get_bot = λ k w. (ok (irc_bot suspended), w);
  update_bot_status = λ b w. (ok b, w);
  list_jobs = λ namespace name w. (ok jobs, w);
  delete_job = λ j w. (ok tt, w);
  set_controller_reference =
      λ b d. ok (record d { metadata = record d.metadata { owner = some b.metadata.name } });
}

irc_lawful : (suspended : Bool) → IrcServer (irc_client suspended)
irc_lawful suspended = record {
  status_answer = λ b live w w' h.
      let same : b ≡ live = cc in
      (ap (λ (b : IrcBot). b.metadata) (sym same), ap (λ (b : IrcBot). b.spec) (sym same));
  controller_reference = λ b d owned h. (some b.metadata.name, cc);
}

abbrev request : ObjectKey
request = record { namespace = "bots"; name = "chat" }

abbrev after : Cluster
after = (reconcile_irc_bot client (irc_client false) request empty).1

reconciled : reconcile_irc_bot client (irc_client false) request empty ≡ (ok tt, after)
unfolding reconcile_irc_bot reconcile_irc_found reconcile_irc_active update_active_jobs
    get_active_jobs count_active cleanup_old_jobs cleanup_from reconcile_bot_deployment
    put_deployment ◌>>=◌ is_not_found irc_deployment
reconciled = refl

reconcile_irc_bot_converges_example :
    IsRunning client (irc_client false) deployments_lawful (irc_lawful false) (irc_bot false) after
reconcile_irc_bot_converges_example =
    reconcile_irc_bot_converges client (irc_client false) deployments_lawful (irc_lawful false)
      request (irc_bot false) empty empty after refl refl refl reconciled

active_test : get_active_jobs jobs ≡ 1
unfolding get_active_jobs count_active
active_test = refl

-- With a limit of one, both jobs go, the running one too.
cleanup_all_or_none_example :
    cleanup_old_jobs (irc_client false) (irc_bot false) jobs
    ≡ (if ltb 1 (length jobs) then delete_each (irc_client false) jobs else pure tt)
cleanup_all_or_none_example = cleanup_all_or_none (irc_client false) (irc_bot false) jobs
