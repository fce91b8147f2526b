-- ===== src/Xhttp.antt =====
-- The XHTTP transport (src/transport/xhttp).
mod Tests
pub mod Grpc
pub mod Shaping
pub mod Uplink
pub mod Watchdog
pub mod Sessions
pub mod Routing
pub mod Downlink
