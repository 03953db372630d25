-- ===== src/Api.antt =====
-- internal/api: the HTTP handlers, less the framework.
pub mod Search
pub mod Health
