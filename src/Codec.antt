-- ===== src/Codec.antt =====
-- Encodings of bytes as text (packages/core/src/encryption/crypto.ts).
pub mod Hex
pub mod Base64
pub mod Decimal
