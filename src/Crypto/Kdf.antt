-- ===== src/Crypto/Kdf.antt =====
-- Key derivation and symmetric encryption (packages/core/src/encryption/crypto.ts).
pub mod Chain
pub mod Cipher
use winkd.Prelude.{ℕ, ◌*◌, ◌∷◌, [], Str, lit, take, drop}
use winkd.Codec.Hex.{Bytes, buf_to_hex, hex_to_buf}
use winkd.Codec.Base64.{buf_to_base64, base64_to_buf}
use winkd.Result.{Result, ok, dom_exception, ◌>>=◌, or_throw}
use winkd.Crypto.WebCrypto.{WebCrypto}

pub record RootStep : Type 0 where
  pub new_root_key : Str
  pub chain_key : Str

pub record ChainStep : Type 0 where
  pub message_key : Bytes
  pub next_chain_key : Str

pub record AesGcmResult : Type 0 where
  pub ciphertext : Str
  pub iv : Str

module _ ⦃web : WebCrypto⦄ where
  unfoldable pub hkdf : Bytes → Bytes → Str → ℕ → Bytes
  hkdf ikm salt info out_bytes = web.hkdf_bits ikm salt (web.utf8_encode info) (out_bytes * 8)

  unfoldable pub hmac_sha256 : Bytes → Bytes → Result Bytes
  hmac_sha256 key_bytes message = do
    key ← or_throw (web.import_hmac key_bytes) dom_exception
    ok (web.hmac_sign key message)

  -- `slice(a, b)` is `drop a` of `take b`.
  unfoldable pub kdf_root_key : Str → Bytes → RootStep
  unfolding hkdf
  kdf_root_key root_key_hex dh_output =
      let out = hkdf dh_output (hex_to_buf root_key_hex) (lit "WinkdRatchetRK v1") 64 in
      record {
        new_root_key = buf_to_hex (take 32 out);
        chain_key = buf_to_hex (drop 32 (take 64 out));
      }

  unfoldable pub kdf_chain_key : Str → Result ChainStep
  unfolding hmac_sha256
  kdf_chain_key chain_key_hex = do
    let ck = hex_to_buf chain_key_hex
    message_key ← hmac_sha256 ck (0x01 ∷ [])
    next_ck ← hmac_sha256 ck (0x02 ∷ [])
    ok (record { message_key = message_key; next_chain_key = buf_to_hex next_ck })

  -- The IV is the given draw.
  unfoldable pub aes_gcm_encrypt : ℕ → Bytes → Bytes → Result AesGcmResult
  aes_gcm_encrypt draw key_bytes plaintext = do
    key ← or_throw (web.import_aes (take 32 key_bytes)) dom_exception
    let iv = web.random_values draw 12
    let ct = web.aes_encrypt key iv plaintext
    ok (record { ciphertext = buf_to_base64 ct; iv = buf_to_base64 iv })

  unfoldable pub aes_gcm_decrypt : Bytes → Str → Str → Result Bytes
  aes_gcm_decrypt key_bytes ciphertext iv = do
    key ← or_throw (web.import_aes (take 32 key_bytes)) dom_exception
    iv_bytes ← or_throw (base64_to_buf iv) dom_exception
    ct ← or_throw (base64_to_buf ciphertext) dom_exception
    or_throw (web.aes_decrypt key iv_bytes ct) dom_exception
