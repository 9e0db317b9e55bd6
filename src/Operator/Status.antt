-- ===== src/Operator/Status.antt =====
-- The status of a bot in threadrbot_controller.go: the phase, the update and the report.
pub mod Phase
pub mod Quiet
pub mod Repeat
use threadr.Common.{
  ℕ, String, Bool, true, false, Option, none, some, List, [], ◌∷◌, ◌&&◌, map, length, ltb, leb,
  ◌==◌, if◌then◌else◌, str_eq, deep_equal, String-discrete, slices_discrete, pointers_discrete,
}
use threadr.Common.Exec.{Exec, gets, pure, ◌>>=◌, ◌>>◌}
use threadr.Operator.Kube.{DeploymentCondition, Condition, Deployment}
use threadr.Operator.Types.{ThreadrBot, ThreadrBotStatus}
use threadr.Operator.ControlPlane.{StatusReport}
use threadr.Operator.Client.{Client}
use native.Mathlib.Decide.{ℕ_discrete}

unfoldable pub Conditions-discrete : Discrete (Option (List Condition))
unfolding String-discrete ℕ_discrete slices_discrete pointers_discrete
Conditions-discrete = pointers_discrete (slices_discrete (hlevel (String-discrete, ℕ_discrete)))

unfoldable pub has_deployment_failure : List DeploymentCondition → Bool
has_deployment_failure [] = false
has_deployment_failure (condition ∷ conditions) =
    if str_eq condition.type "ReplicaFailure" && str_eq condition.status "True"
    then true
    else has_deployment_failure conditions

unfoldable pub phase_for : ThreadrBot → Deployment → String
phase_for bot deployment =
    if str_eq bot.spec.desired_state "deleted"
    then "deleting"
    else if str_eq bot.spec.desired_state "stopped"
    then (if deployment.status.replicas == 0 && deployment.status.ready_replicas == 0
        then "stopped"
        else "reconciling")
    else if leb bot.spec.workload.replicas deployment.status.ready_replicas
        && leb bot.spec.workload.replicas deployment.status.available_replicas
        && ltb 0 bot.spec.workload.replicas
    then "running"
    else if has_deployment_failure deployment.status.conditions
    then "degraded"
    else "reconciling"

abbrev pub normalize_condition : DeploymentCondition → Condition
normalize_condition condition = record {
  type = condition.type;
  status = condition.status;
  observed_generation = 0;
  last_transition_time = condition.last_transition_time;
  reason = condition.reason;
  message = condition.message;
}

unfoldable pub normalize_deployment_conditions : List DeploymentCondition → Option (List Condition)
normalize_deployment_conditions conditions = some (map normalize_condition conditions)

abbrev pub conditions_length : Option (List Condition) → ℕ
conditions_length none = 0
conditions_length (some cs) = length cs

unfoldable pub conditions_equivalent : Option (List Condition) → Option (List Condition) → Bool
unfolding Conditions-discrete
conditions_equivalent current next =
    if conditions_length current == 0 && conditions_length next == 0
    then true
    else deep_equal Conditions-discrete current next

unfoldable pub threadr_bot_status_equivalent : ThreadrBotStatus → ThreadrBotStatus → Bool
threadr_bot_status_equivalent current next =
    str_eq current.phase next.phase
    && current.observed_generation == next.observed_generation
    && str_eq current.deployment_name next.deployment_name
    && current.ready_replicas == next.ready_replicas
    && current.available_replicas == next.available_replicas
    && conditions_equivalent current.conditions next.conditions

unfoldable pub status_reason : String → String
status_reason phase =
    if str_eq phase "running"
    then "deployment_available"
    else if str_eq phase "stopped"
    then "deployment_scaled_down"
    else if str_eq phase "degraded"
    then "deployment_replica_failure"
    else if str_eq phase "deleting"
    then "deployment_deleted"
    else if str_eq phase "reconciling"
    then "deployment_reconciling"
    else if str_eq phase "error"
    then "deployment_error"
    else "deployment_status_updated"

-- The copy of the status with the observed values written into it.
unfoldable pub observed_status : ThreadrBot → Option Deployment → String → ThreadrBotStatus
observed_status bot none phase = record {
  phase = phase;
  observed_generation = bot.spec.control_plane.generation;
  deployment_name = bot.spec.workload.deployment_name;
  ready_replicas = 0;
  available_replicas = 0;
  conditions = none;
  last_observed_at = bot.status.last_observed_at;
}
observed_status bot (some deployment) phase = record {
  phase = phase;
  observed_generation = bot.spec.control_plane.generation;
  deployment_name = bot.spec.workload.deployment_name;
  ready_replicas = deployment.status.ready_replicas;
  available_replicas = deployment.status.available_replicas;
  conditions = normalize_deployment_conditions deployment.status.conditions;
  last_observed_at = bot.status.last_observed_at;
}

unfoldable pub status_report : ThreadrBot → StatusReport
status_report bot = record {
  tenant_subject = bot.spec.control_plane.tenant_subject;
  bot_id = bot.spec.control_plane.bot_id;
  status = bot.status.phase;
  reason = status_reason bot.status.phase;
  deployment_name = bot.status.deployment_name;
  observed_at = bot.status.last_observed_at;
  generation = bot.status.observed_generation;
  ready_replicas = bot.status.ready_replicas;
  available_replicas = bot.status.available_replicas;
}

-- `none` is a nil `StatusReporter`.
abbrev pub StatusReporter : Type 0 → Type 0
StatusReporter W = Option (StatusReport → Exec W (Unit {0}))

unfoldable pub report_status_to_control_plane :
    {W : Type 0} → StatusReporter W → ThreadrBot → Exec W (Unit {0})
report_status_to_control_plane none bot = pure tt
report_status_to_control_plane (some report_bot_status) bot = report_bot_status (status_report bot)

module _ {W : Type 0} (c : Client W) (reporter : StatusReporter W) where
  abbrev pub stamped : ThreadrBot → ThreadrBotStatus → ℕ → ThreadrBot
  stamped bot status time = record bot { status = record status { last_observed_at = time } }

  -- The write and the report, for a status that differs from the stored one.
  unfoldable pub write_status : ThreadrBot → ThreadrBotStatus → Exec W (Unit {0})
  write_status bot status = do
    time ← gets c.now
    answered ← c.update_bot_status (stamped bot status time)
    report_status_to_control_plane reporter answered

  unfoldable pub update_threadr_bot_status :
      ThreadrBot → Option Deployment → String → Exec W (Unit {0})
  update_threadr_bot_status bot deployment phase =
      let status = observed_status bot deployment phase in
      if threadr_bot_status_equivalent bot.status status then pure tt else write_status bot status
