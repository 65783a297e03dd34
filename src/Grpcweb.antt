-- ===== src/Grpcweb.antt =====
-- The gRPC-Web transport: internal/transport/grpcweb.
pub mod Framing
