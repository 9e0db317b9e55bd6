-- ===== src/Operator/Tests/Reconciler.antt =====
-- The desired deployment, the phase, the status and the reconciler on a cluster in memory.
use threadr.Common.{
  String-discrete, str_ne, true, false, Option, none, some, [], ◌≡◌, refl, ◌↔◌, inl,
}
use threadr.Common.Maps.{maps_equal, find, lookup, or_else}
use threadr.Common.Exec.{is_not_found, failed, ok, err, Exec, ◌>>=◌}
use threadr.Operator.Kube.{ObjectKey-discrete, Deployment}
use threadr.Operator.Types.{ThreadrBot, read_back}
use threadr.Operator.ControlPlane.{StatusReport}
use threadr.Operator.Deployment.Desired.{
  merge_string_maps, workload_container, desired_deployment, workload_labels, controller_labels,
}
use threadr.Operator.Deployment.Drift.{
  note, replicas_equal, flags_equal, selectors_equal, managed_fields_match,
  managed_containers_match, managed_volumes_match, managed_image_pull_secrets_match,
  deployment_update_reasons,
}
use threadr.Operator.Deployment.Drift.Managed.{Managed}
use threadr.Operator.Deployment.Drift.Exact.{update_reasons_iff}
use threadr.Operator.Deployment.Laws.{IsWellFormed, desired-IsWellFormed, find-workload_labels}
use threadr.Operator.Status.{
  Conditions-discrete, conditions_equivalent, normalize_deployment_conditions, write_status,
  report_status_to_control_plane, phase_for, observed_status, stamped, update_threadr_bot_status,
  threadr_bot_status_equivalent,
}
use threadr.Operator.Status.Phase.{PhaseIs, phase_for_iff}
use threadr.Operator.Status.Quiet.{Quiet}
use threadr.Operator.Status.Repeat.{failed_report_is_lost}
use threadr.Operator.Reconcile.{
  reconcile_deleted, delete_deployment_if_present, delete_found, reconcile, reconcile_found,
  reconcile_bot, reconcile_live, apply_deployment, is_deleted,
}
use threadr.Operator.Reconcile.Converge.{Realizes, reconcile_converges, reconcile_deletes}
use threadr.Operator.Sync.{is_expected}
use threadr.Operator.Cluster.{
  Cluster, empty, client, recorder, deployment_in, set_bot, set_deployment,
}
use threadr.Operator.Cluster.Deployments.{deployments_lawful}
use threadr.Operator.Tests.Samples.{bot_in_state, bot, desired, request, before, control_plane}

quiet : Quiet deployments_lawful.deployment_at control_plane
unfolding deployments_lawful
quiet = λ r. record { at = λ w. refl }

abbrev after : Cluster
after = (reconcile client (some recorder) request before).1

labels_test : find "app.kubernetes.io/name" (workload_labels bot) ≡ some "threadr-bot"
unfolding workload_labels lookup merge_string_maps
labels_test = refl

other_label_test : find "team" (workload_labels bot) ≡ some "core"
unfolding workload_labels lookup merge_string_maps
other_label_test = refl

find-workload_labels_example :
    find "team" (workload_labels bot)
    ≡ or_else (lookup "team" (controller_labels bot)) (find "team" bot.metadata.labels)
find-workload_labels_example = find-workload_labels bot "team"

desired-IsWellFormed_example : IsWellFormed (desired_deployment client.decimal bot)
desired-IsWellFormed_example = desired-IsWellFormed client.decimal bot

update_reasons_iff_example :
    (deployment_update_reasons desired desired ≡ []) ↔ Managed desired desired
update_reasons_iff_example = update_reasons_iff desired desired

abbrev up : Deployment
up = record desired {
  status = record { replicas = 1; ready_replicas = 1; available_replicas = 1; conditions = [] };
}

running_test : phase_for bot up ≡ "running"
unfolding phase_for
running_test = refl

phase_for_iff_example : (phase_for bot up ≡ "running") ↔ PhaseIs bot up "running"
phase_for_iff_example = phase_for_iff bot up "running"

-- A control plane that is down.
abbrev down : StatusReport → Exec Cluster (Unit {0})
down report w = (err (failed "unreachable"), w)

abbrev stored : ThreadrBot
stored = stamped client (some down) bot (observed_status bot (some up) "running") 7

status_changed :
    threadr_bot_status_equivalent bot.status (observed_status bot (some up) "running") ≡ false
unfolding threadr_bot_status_equivalent observed_status
status_changed = refl

failed_report_is_lost_example :
    (update_threadr_bot_status client (some down) bot (some up) "running" before
      ≡ (err (failed "unreachable"), set_bot request (some (read_back stored)) before))
    × ((later : Option (StatusReport → Exec Cluster (Unit {0}))) (u : Cluster)
        → (update_threadr_bot_status client later stored (some up) "running" u ≡ (ok tt, u))
          × (update_threadr_bot_status client later (read_back stored) (some up) "running" u
              ≡ (ok tt, u)))
failed_report_is_lost_example =
    failed_report_is_lost client down bot (some up) "running" (failed "unreachable") before
      (set_bot request (some (read_back stored)) before)
      (set_bot request (some (read_back stored)) before) status_changed refl refl

got : client.get_bot request before ≡ (ok bot, before)
unfolding is_expected ObjectKey-discrete String-discrete
got = refl

created : reconcile client (some recorder) request before ≡ (ok tt, after)
unfolding reconcile reconcile_found reconcile_bot reconcile_live reconcile_deleted apply_deployment
    is_deleted update_threadr_bot_status write_status report_status_to_control_plane observed_status
    threadr_bot_status_equivalent ◌>>=◌ is_not_found is_expected ObjectKey-discrete String-discrete
    desired_deployment
created = refl

reconcile_converges_example : Realizes client control_plane deployments_lawful quiet after desired
unfolding deployments_lawful desired_deployment
reconcile_converges_example =
    reconcile_converges client control_plane deployments_lawful quiet request bot before before
      after got (str_ne "running" "deleted" refl) refl created

abbrev doomed : ThreadrBot
doomed = bot_in_state "deleted" 1

abbrev with_doomed : Cluster
with_doomed = set_deployment request (some up) (set_bot request (some doomed) empty)

abbrev cleared : Cluster
cleared = (reconcile client control_plane request with_doomed).1

got_doomed : client.get_bot request with_doomed ≡ (ok doomed, with_doomed)
unfolding is_expected ObjectKey-discrete String-discrete
got_doomed = refl

deleted : reconcile client control_plane request with_doomed ≡ (ok tt, cleared)
unfolding reconcile reconcile_found reconcile_bot reconcile_live reconcile_deleted is_deleted
    delete_deployment_if_present delete_found update_threadr_bot_status write_status
    report_status_to_control_plane observed_status threadr_bot_status_equivalent ◌>>=◌ is_not_found
    is_expected ObjectKey-discrete String-discrete desired_deployment
deleted = refl

reconcile_deletes_example : deployment_in cleared request ≡ none
unfolding deployments_lawful desired_deployment
reconcile_deletes_example =
    reconcile_deletes client control_plane deployments_lawful quiet request doomed with_doomed
      with_doomed cleared got_doomed (inl refl) deleted

abbrev owned : Deployment
owned = record up { metadata = record up.metadata { owner = some "irc-main" } }

abbrev seen : ThreadrBot
seen = stamped client control_plane bot (observed_status bot (some owned) "running") 5

abbrev steady : Cluster
steady = set_deployment request (some owned) (set_bot request (some seen) empty)

got_seen : client.get_bot request steady ≡ (ok seen, steady)
unfolding is_expected ObjectKey-discrete String-discrete
got_seen = refl

got_owned : client.get_deployment request steady ≡ (ok owned, steady)
unfolding is_expected ObjectKey-discrete String-discrete desired_deployment
got_owned = refl

unchanged :
    threadr_bot_status_equivalent seen.status (observed_status seen (some owned) "running") ≡ true
unfolding threadr_bot_status_equivalent observed_status phase_for Conditions-discrete
    conditions_equivalent normalize_deployment_conditions
unchanged = refl

-- The desired deployment with its owner set: what `SetControllerReference` answers.
abbrev wanted : Deployment
wanted = record desired { metadata = record desired.metadata { owner = some "irc-main" } }

none_found : deployment_update_reasons owned wanted ≡ []
unfolding deployment_update_reasons note replicas_equal flags_equal selectors_equal
    managed_fields_match managed_containers_match managed_volumes_match
    managed_image_pull_secrets_match maps_equal workload_labels merge_string_maps workload_container
    desired_deployment lookup
none_found = refl

abbrev told : Cluster
told = (update_threadr_bot_status client control_plane bot (some up) "running" before).1

told_ok :
    update_threadr_bot_status client control_plane bot (some up) "running" before ≡ (ok tt, told)
unfolding update_threadr_bot_status write_status report_status_to_control_plane observed_status
    threadr_bot_status_equivalent ◌>>=◌
told_ok = refl
