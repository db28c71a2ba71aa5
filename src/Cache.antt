-- ===== src/Cache.antt =====
-- The in-memory caches of the package cache: the models pinned to sessions, and the responses.
pub mod Session
pub mod Prompt
