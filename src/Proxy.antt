-- ===== src/Proxy.antt =====
-- internal/proxydrv: the reverse proxy's configuration.
pub mod Config
pub mod Routes
pub mod Live
pub mod Same
mod Tests
