-- ===== src/Api.antt =====
-- internal/api: the handshake of a caller on api.sock, who may call what, and the handlers that deploy, prune and roll back.
pub mod Credentials
pub mod Authz
pub mod Access
pub mod Redaction
pub mod Handling
pub mod Recorded
pub mod Deploying
pub mod Defining
pub mod Arranged
pub mod Rows
pub mod Defined
pub mod Lifecycle
pub mod Phases
pub mod Settled
pub mod Pruning
pub mod Reverting
pub mod Reverted
pub mod Stages
pub mod Spared
mod Tests
mod HandlerTests
mod LifecycleTests
