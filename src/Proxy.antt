-- ===== src/Proxy.antt =====
-- The HTTP-facing layer of internal/proxy: the loops over the fallback chain, and the chat handler.
pub mod Upstream
pub mod Fallback
pub mod Stream
pub mod Server
pub mod Worker
