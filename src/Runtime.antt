-- ===== src/Runtime.antt =====
-- The runtime that the transports share: internal/runtime.
pub mod Sessions
pub mod Chain
pub mod Gateway
