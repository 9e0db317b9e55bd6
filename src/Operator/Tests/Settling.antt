-- ===== src/Operator/Tests/Settling.antt =====
-- Two reconciliations in a cluster whose deployment has drifted.
use threadr.Common.{String-discrete, none, some, [], ◌≡◌, refl, str_ne}
use threadr.Common.Maps.{maps_equal, lookup}
use threadr.Common.Exec.{ok, ◌>>=◌, is_not_found}
use threadr.Operator.Kube.{ObjectKey-discrete, Deployment}
use threadr.Operator.Types.{ThreadrBot, read_back}
use threadr.Operator.Deployment.Desired.{
  merge_string_maps, workload_container, desired_deployment, workload_labels,
}
use threadr.Operator.Deployment.Drift.{
  note, replicas_equal, flags_equal, selectors_equal, managed_fields_match,
  managed_containers_match, managed_volumes_match, managed_image_pull_secrets_match,
  deployment_update_reasons,
}
use threadr.Operator.Status.{
  normalize_deployment_conditions, write_status, report_status_to_control_plane, phase_for,
  observed_status, stamped, update_threadr_bot_status, threadr_bot_status_equivalent,
}
use threadr.Operator.Status.Quiet.{Quiet}
use threadr.Operator.Sync.{is_expected}
use threadr.Operator.Reconcile.{
  reconcile, reconcile_found, reconcile_bot, reconcile_live, reconcile_deleted, apply_deployment,
  is_deleted, overwritten, update_if_needed,
}
use threadr.Operator.Reconcile.Again.{reconcile_settles}
use threadr.Operator.Cluster.{Cluster, client, set_deployment}
use threadr.Operator.Cluster.Bots.{bots_lawful}
use threadr.Operator.Cluster.Deployments.{deployments_lawful}
use threadr.Operator.Cluster.Isolated.{deployments_isolated, bots_status}
use threadr.Operator.Tests.Samples.{bot, desired, request, before, control_plane}

-- Somebody has taken the number of replicas out.
abbrev drifted : Deployment
drifted = record desired {
  spec = record desired.spec { replicas = none };
  status = record { replicas = 1; ready_replicas = 1; available_replicas = 1; conditions = [] };
}

abbrev start : Cluster
start = set_deployment request (some drifted) before

abbrev once : Cluster
once = (reconcile client control_plane request start).1

abbrev wanted : Deployment
wanted = record desired { metadata = record desired.metadata { owner = some "irc-main" } }

abbrev live : Deployment
live = overwritten drifted wanted

abbrev next : ThreadrBot
next = read_back (stamped client control_plane bot (observed_status bot (some live) "running") 7)

still : Quiet deployments_lawful.deployment_at control_plane
unfolding deployments_lawful
still = λ r. record { at = λ w. refl }

untouched : Quiet bots_lawful.bot_at control_plane
unfolding bots_lawful
untouched = λ r. record { at = λ w. refl }

got : client.get_bot request start ≡ (ok bot, start)
unfolding is_expected ObjectKey-discrete String-discrete
got = refl

read : client.get_deployment request start ≡ (ok drifted, start)
unfolding ObjectKey-discrete String-discrete desired_deployment
read = refl

first : reconcile client control_plane request start ≡ (ok tt, once)
unfolding reconcile reconcile_found reconcile_bot reconcile_live reconcile_deleted apply_deployment
    is_deleted update_threadr_bot_status write_status report_status_to_control_plane observed_status
    threadr_bot_status_equivalent ◌>>=◌ is_not_found is_expected ObjectKey-discrete String-discrete
    desired_deployment update_if_needed deployment_update_reasons note replicas_equal phase_for
    workload_labels workload_container flags_equal selectors_equal managed_fields_match
    managed_containers_match managed_volumes_match managed_image_pull_secrets_match maps_equal
    merge_string_maps lookup normalize_deployment_conditions
first = refl

got_next : client.get_bot request once ≡ (ok next, once)
unfolding reconcile reconcile_found reconcile_bot reconcile_live reconcile_deleted apply_deployment
    is_deleted update_threadr_bot_status write_status report_status_to_control_plane observed_status
    threadr_bot_status_equivalent ◌>>=◌ is_not_found is_expected ObjectKey-discrete String-discrete
    desired_deployment update_if_needed deployment_update_reasons note replicas_equal phase_for
    workload_labels workload_container flags_equal selectors_equal managed_fields_match
    managed_containers_match managed_volumes_match managed_image_pull_secrets_match maps_equal
    merge_string_maps lookup normalize_deployment_conditions
got_next = refl

read_next : client.get_deployment request once ≡ (ok live, once)
unfolding reconcile reconcile_found reconcile_bot reconcile_live reconcile_deleted apply_deployment
    is_deleted update_threadr_bot_status write_status report_status_to_control_plane observed_status
    threadr_bot_status_equivalent ◌>>=◌ is_not_found is_expected ObjectKey-discrete String-discrete
    desired_deployment update_if_needed deployment_update_reasons note replicas_equal phase_for
    workload_labels workload_container flags_equal selectors_equal managed_fields_match
    managed_containers_match managed_volumes_match managed_image_pull_secrets_match maps_equal
    merge_string_maps lookup normalize_deployment_conditions
read_next = refl

reconcile_settles_example : reconcile client control_plane request once ≡ (ok tt, once)
unfolding desired_deployment observed_status normalize_deployment_conditions workload_labels
    workload_container bots_lawful deployments_lawful
reconcile_settles_example =
    reconcile_settles client control_plane bots_lawful bots_status untouched deployments_lawful
      still deployments_isolated request bot next drifted live wanted wanted start start start once
      once once got (str_ne "running" "deleted" refl) refl refl read first got_next refl read_next
