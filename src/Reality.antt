-- ===== src/Reality.antt =====
-- The Reality transport (src/transport/reality).
mod Tests
pub mod HelloParser
pub mod Record
pub mod ClientHello
pub mod Auth
pub mod ServerHello
pub mod Crypto
pub mod Stream
pub mod Accept
pub mod CertFetch
pub mod Inject
pub mod Server
pub mod Handshake
