-- ===== src/Operator/Status/Phase.antt =====
-- What each phase says of the cluster.
use threadr.Common.{
  ◌≤◌, ◌<◌, String, true, List, [], ◌∷◌, ◌≡◌, ◌≢◌, refl, sym, ◌∙◌, ◌↔◌, ◌⊎◌, str_eq_iff, str_ne,
  arith,
}
use threadr.Operator.Kube.{DeploymentCondition, Deployment}
use threadr.Operator.Types.{ThreadrBot}
use threadr.Operator.Status.{has_deployment_failure, phase_for}

-- Some condition of the deployment is a true `ReplicaFailure`.
abbrev pub HasFailure : List DeploymentCondition → Type 0
HasFailure [] = ⊥
HasFailure (condition ∷ conditions) =
    ((condition.type ≡ "ReplicaFailure") × (condition.status ≡ "True")) ⊎ HasFailure conditions

has_deployment_failure_iff :
    (conditions : List DeploymentCondition)
    → (has_deployment_failure conditions ≡ true) ↔ HasFailure conditions
unfolding has_deployment_failure
has_deployment_failure_iff [] = ((λ h. cc), (λ h. absurd h))
has_deployment_failure_iff (condition ∷ conditions) = ground (
  arith,
  str_eq_iff condition.type "ReplicaFailure",
  str_eq_iff condition.status "True",
  has_deployment_failure_iff conditions,
)

-- Enough pods are ready and available, and at least one is wanted.
abbrev pub IsUp : ThreadrBot → Deployment → Type 0
IsUp bot deployment =
    (bot.spec.workload.replicas ≤ deployment.status.ready_replicas)
    × (bot.spec.workload.replicas ≤ deployment.status.available_replicas)
    × (0 < bot.spec.workload.replicas)

abbrev pub IsDown : Deployment → Type 0
IsDown deployment = (deployment.status.replicas ≡ 0) × (deployment.status.ready_replicas ≡ 0)

abbrev pub IsWanted : ThreadrBot → Type 0
IsWanted bot = (bot.spec.desired_state ≢ "deleted") × (bot.spec.desired_state ≢ "stopped")

-- A bot that is wanted and not up.
abbrev pub IsStarting : ThreadrBot → Deployment → Type 0
IsStarting bot deployment = IsWanted bot × ¬ IsUp bot deployment

-- The cases of the phases, which exclude each other, with no order of tests.
abbrev pub PhaseIs : ThreadrBot → Deployment → String → Type 0
PhaseIs bot deployment phase =
    ((phase ≡ "deleting") × (bot.spec.desired_state ≡ "deleted"))
    ⊎ (((phase ≡ "stopped") × (bot.spec.desired_state ≡ "stopped") × IsDown deployment)
        ⊎ (((phase ≡ "reconciling") × (bot.spec.desired_state ≡ "stopped") × ¬ IsDown deployment)
            ⊎ (((phase ≡ "running") × IsWanted bot × IsUp bot deployment)
                ⊎ (((phase ≡ "degraded")
                      × IsStarting bot deployment
                      × HasFailure deployment.status.conditions)
                    ⊎ ((phase ≡ "reconciling")
                        × IsStarting bot deployment
                        × ¬ HasFailure deployment.status.conditions)))))

deleted_is_not_stopped : (state : String) → state ≡ "deleted" → state ≢ "stopped"
deleted_is_not_stopped state d s = str_ne "deleted" "stopped" refl (sym d ∙ s)

-- The reported phase is the one of the case that the bot and its deployment are in: which of
-- deleting, stopped, running, degraded and reconciling it is follows from the desired state, the
-- replica counts and the failure conditions, and from nothing else.
pub phase_for_iff :
    (bot : ThreadrBot) (deployment : Deployment) (phase : String)
    → (phase_for bot deployment ≡ phase) ↔ PhaseIs bot deployment phase
unfolding phase_for
phase_for_iff bot deployment phase = ground (
  arith,
  str_eq_iff bot.spec.desired_state "deleted",
  str_eq_iff bot.spec.desired_state "stopped",
  deleted_is_not_stopped bot.spec.desired_state,
  has_deployment_failure_iff deployment.status.conditions,
)
