-- ===== src/Vless.antt =====
-- The VLESS protocol (src/protocol/vless): addresses, requests, the response, and the codec that
-- holds the allowed clients.
pub mod Error
pub mod Address
pub mod Request
pub mod Response
pub mod Codec
mod Tests
