-- ===== src/Exec.antt =====
-- internal/exec: the privileged executor, of which the journal is modelled.
pub mod Journal
pub mod Reopening
pub mod Appending
pub mod Unsynced
mod Tests
