-- ===== src/Lwm2m.antt =====
-- The LwM2M layer: internal/protocol/lwm2m.
pub mod Tlv
