-- ===== src/Embed.antt =====
-- The package embed, as far as it does not call the ONNX runtime.
pub mod Tokenizer
