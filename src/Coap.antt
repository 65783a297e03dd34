-- ===== src/Coap.antt =====
-- The CoAP transport: internal/transport/coap.
pub mod Message
pub mod Block
pub mod Retransmit
pub mod Observe
pub mod Server
