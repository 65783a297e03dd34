-- ===== src/Transport.antt =====
-- Parts that the transports share: internal/transport/shared.
pub mod Quota
pub mod Backoff
pub mod Proxy
