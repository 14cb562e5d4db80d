-- ===== src/Crypto/WebCrypto.antt =====
-- `globalThis.crypto` and `crypto.subtle`, as far as packages/core/src/encryption/crypto.ts calls
-- them, and the JSON text of a JWK. They belong to the browser: a parameter of the model.
use winkd.Prelude.{ℕ, Bool, Option, Str}
use winkd.Prelude.Dict.{Dict}
use winkd.Codec.Hex.{Bytes}

-- The `name` of the import parameters.
pub data Algorithm : Type 0 where
  ecdh ecdsa : Algorithm

-- A JSON web key: its members, each with the JSON text of its value.
abbrev pub Jwk : Type 0
Jwk = Dict Str Str

-- `none` stands for a promise that is rejected. What is random is a function of the number of the
-- draw, counted over the life of the device.
pub record WebCrypto : Type 1 where
  pub CryptoKey : Type 0
  -- the public and the private key of a new P-256 pair
  pub generate_key : ℕ → CryptoKey × CryptoKey
  pub export_raw : CryptoKey → Bytes
  pub export_jwk : CryptoKey → Jwk
  pub import_raw : Algorithm → Bytes → Option CryptoKey
  pub import_jwk : Algorithm → Jwk → Option CryptoKey
  -- `JSON.stringify` and `JSON.parse` on such objects
  pub stringify_jwk : Jwk → Str
  pub parse_jwk : Str → Option Jwk
  -- ECDH: the private key, the public key, and a number of bits
  pub ecdh_bits : CryptoKey → CryptoKey → ℕ → Option Bytes
  -- HKDF-SHA256: key material, salt, info and a number of bits
  pub hkdf_bits : Bytes → Bytes → Bytes → ℕ → Bytes
  pub import_hmac : Bytes → Option CryptoKey
  pub hmac_sign : CryptoKey → Bytes → Bytes
  -- AES-GCM: key, IV and data
  pub import_aes : Bytes → Option CryptoKey
  pub aes_encrypt : CryptoKey → Bytes → Bytes → Bytes
  pub aes_decrypt : CryptoKey → Bytes → Bytes → Option Bytes
  pub ecdsa_sign : CryptoKey → Bytes → Bytes
  -- key, signature, data
  pub ecdsa_verify : CryptoKey → Bytes → Bytes → Option Bool
  pub sha512 : Bytes → Bytes
  -- `getRandomValues(new Uint8Array(n))`
  pub random_values : ℕ → ℕ → Bytes
  -- `TextEncoder` and `TextDecoder`
  pub utf8_encode : Str → Bytes
  pub utf8_decode : Bytes → Str
