-- ===== src/Operator/Client.antt =====
-- What the operator uses of controller-runtime, which is no code of the repository: the calls as a
-- record over a world, and what the operator relies on as the records of `Server`.
pub mod Server
use threadr.Common.{ℕ, String, List}
use threadr.Common.Exec.{Exec, Result}
use threadr.Operator.Kube.{ObjectKey, Deployment}
use threadr.Operator.Types.{ThreadrBot}

-- A call that writes answers the object as the server has stored it, and the caller's own object is
-- overwritten with that answer.
pub record Client (W : Type 0) : Type 0 where
  pub get_bot : ObjectKey → Exec W ThreadrBot
  pub list_bots : String → String → Exec W (List ThreadrBot)
  pub create_bot : ThreadrBot → Exec W ThreadrBot
  pub update_bot : ThreadrBot → Exec W ThreadrBot
  pub delete_bot : ThreadrBot → Exec W Unit
  pub update_bot_status : ThreadrBot → Exec W ThreadrBot
  pub get_deployment : ObjectKey → Exec W Deployment
  pub create_deployment : Deployment → Exec W Deployment
  pub update_deployment : Deployment → Exec W Deployment
  pub delete_deployment : Deployment → Exec W Unit
  pub get_namespace : String → Exec W Unit
  pub create_namespace : String → Exec W Unit
  pub set_controller_reference : ThreadrBot → Deployment → Result Deployment
  pub now : W → ℕ
  pub decimal : ℕ → String

-- `client.ObjectKeyFromObject` of a deployment.
abbrev pub deployment_key : Deployment → ObjectKey
deployment_key d = record { namespace = d.metadata.namespace; name = d.metadata.name }
