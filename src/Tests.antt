-- ===== src/Tests.antt =====
-- Runs of the program's operations on small inputs, and the theorems at such inputs.
pub mod Fixtures
pub mod Limits
pub mod Caches
pub mod Costs
pub mod Routing
pub mod Proxying
pub mod Tokens
pub mod Skills
pub mod Pools
pub mod Providers
