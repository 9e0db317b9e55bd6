-- ===== src/Operator/Deployment.antt =====
-- internal/controller/threadrbot_controller.go: the workload that a bot asks for, and the comparison
-- of a live deployment with it.
pub mod Desired
pub mod Drift
pub mod Laws
