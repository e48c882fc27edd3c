-- ===== src/Store.antt =====
-- internal/store: the history of deployments, and the releases.
pub mod Deployments
pub mod History
pub mod Releases
pub mod Apps
pub mod Merging
pub mod AuditLog
pub mod Paging
pub mod Appended
pub mod Numbering
pub mod Counting
pub mod Final
mod Tests
mod ReleaseTests
mod AuditTests
