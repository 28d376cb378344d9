-- ===== src/System.antt =====
-- internal/system and internal/config: what runs the service.
pub mod Retry
pub mod Settings
