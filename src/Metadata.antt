-- ===== src/Metadata.antt =====
-- internal/metadata: the block heights of a chain, and what is known of a request.
pub mod Store
pub mod Heights
pub mod Bounds
pub mod Interleaving
pub mod Parser
