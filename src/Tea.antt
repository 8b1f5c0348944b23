-- ===== src/Tea.antt =====
-- crates/qq-envelope/src/tea: the QQ variant of the TEA cipher, its block cipher and its chaining
-- mode with padding.
pub mod Block
pub mod Codec
