-- ===== src/Deploy.antt =====
-- internal/deploy: how a release goes live (rollout.go) and how the proxy is brought in line with the
-- active deployments (reconcile.go).
pub mod World
pub mod Reconcile
pub mod Replicas
pub mod Rollout
pub mod Gate
pub mod Streak
pub mod Protocol
pub mod Steps
pub mod Waiting
pub mod Draining
pub mod Switch
pub mod Healing
pub mod Repair
pub mod Restored
pub mod Stale
pub mod Routing
mod Tests
