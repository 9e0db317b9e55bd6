-- ===== src/Operator.antt =====
-- The Kubernetes operator, k8s/operators/ircbot-operator.
pub mod Kube
pub mod Types
pub mod ControlPlane
pub mod Deployment
pub mod Client
pub mod Status
pub mod Reconcile
pub mod Sync
pub mod IrcBot
pub mod Smoke
pub mod Start
pub mod Utils
pub mod Contract
mod Cluster
mod Tests
