-- ===== src/Crypto.antt =====
-- packages/core/src/encryption/crypto.ts, over the browser's SubtleCrypto.
pub mod WebCrypto
pub mod Assumptions
pub mod Keys
pub mod PreKeys
pub mod Kdf
pub mod X3dh
pub mod SafetyNumber
