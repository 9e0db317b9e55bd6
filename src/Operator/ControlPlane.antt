-- ===== src/Operator/ControlPlane.antt =====
-- internal/controlplane/client.go: what the control plane hands out and is told.
pub mod Http
pub mod Config
use threadr.Common.{ℕ, String}
use threadr.Operator.Types.{ThreadrBot}

pub record BotContract : Type 0 where
  pub id : String
  pub tenant_id : String
  pub bot_id : String
  pub generation : ℕ
  pub operation : String
  pub deployment_name : String
  pub namespace : String
  pub contract : ThreadrBot

-- The metadata map holds the two replica counts.
pub record StatusReport : Type 0 where
  pub tenant_subject : String
  pub bot_id : String
  pub status : String
  pub reason : String
  pub deployment_name : String
  pub observed_at : ℕ
  pub generation : ℕ
  pub ready_replicas : ℕ
  pub available_replicas : ℕ
