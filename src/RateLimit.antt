-- ===== src/RateLimit.antt =====
-- The rate limiters of the package ratelimit: one for each user, and one for each upstream model.
pub mod User
pub mod Model
