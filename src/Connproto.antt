-- ===== src/Connproto.antt =====
-- internal/connproto: the caller's identity with its role (role.go), and the preamble that carries
-- it at the head of a connection (identity.go).
pub mod Role
pub mod Scope
pub mod Preamble
pub mod Wire
mod Tests
