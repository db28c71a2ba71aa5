-- ===== src/Provider.antt =====
-- The package provider: the client of OpenAI-compatible servers.
pub mod Openai
