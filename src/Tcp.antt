-- ===== src/Tcp.antt =====
-- The TCP transport: internal/transport/tcp.
pub mod Framer
