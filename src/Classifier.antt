-- ===== src/Classifier.antt =====
-- The package classifier: the tiers of scores, the heuristic classifier and the cascade.
pub mod Bucket
pub mod Heuristic
pub mod Llm
pub mod Cascade
