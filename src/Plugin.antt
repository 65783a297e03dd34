-- ===== src/Plugin.antt =====
-- The plugins that guard a session's messages: internal/plugin.
pub mod RateLimit
pub mod AutoBan
