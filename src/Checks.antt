-- ===== src/Checks.antt =====
-- internal/checks: the health checks of an upstream.
pub mod Breaker
pub mod Patterns
pub mod Matching
pub mod Request
pub mod ErrorCheck
pub mod LatencyCheck
pub mod Client
pub mod PeerCheck
pub mod BlockHeight
pub mod Manager
