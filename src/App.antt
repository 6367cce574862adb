-- ===== src/App.antt =====
-- internal/app: what the request handlers call.
pub mod Preflight
pub mod Notify
pub mod Release
pub mod Versions
