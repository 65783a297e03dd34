-- ===== src/Infra.antt =====
-- Supporting services: internal/infra.
pub mod Breaker
pub mod Cache
