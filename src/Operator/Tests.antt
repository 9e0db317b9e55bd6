-- ===== src/Operator/Tests.antt =====
-- What the operator does on a cluster in memory.
pub mod Samples
mod Reconciler
mod Neighbours
mod Settling
mod Syncer
mod IrcBots
mod Control
mod Contracts
mod Starting
mod Utils
mod Smoking
mod Waiting
