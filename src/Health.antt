-- ===== src/Health.antt =====
-- internal/health: the supervisor that probes the active deployments and heals those that fail.
pub mod Options
pub mod Backoff
pub mod Supervisor
pub mod Local
pub mod Guard
pub mod Steady
pub mod Cycle
mod Tests
