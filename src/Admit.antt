-- ===== src/Admit.antt =====
-- What an app may be: internal/api/appvalidate.go and volumevalidate.go, which judge a definition when it
-- is made, and internal/exec/validate.go, gitsource.go and repoallow.go, which judge it again before it runs.
pub mod Checks
pub mod Patterns
pub mod Path
pub mod Volumes
pub mod Spec
pub mod Create
pub mod Source
pub mod Agree
pub mod Accepted
pub mod Inside
pub mod Apart
pub mod Tests
