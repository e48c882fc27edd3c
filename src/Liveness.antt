-- ===== src/Liveness.antt =====
-- internal/liveness: the beats of the loops, and the watchdog over them.
pub mod Watchdog
pub mod Alive
mod Tests
