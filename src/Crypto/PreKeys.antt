-- ===== src/Crypto/PreKeys.antt =====
-- Signing, and the generation of keys (packages/core/src/encryption/crypto.ts).
pub mod Signing
use winkd.Prelude.{ℕ, ◌+◌, ◌%◌, Bool, true, false, Option, none, some, Str}
use winkd.Codec.Base64.{buf_to_base64, base64_to_buf}
use winkd.Result.{Result, ok, err, dom_exception, ◌>>=◌, or_throw}
use winkd.KeyTypes.{IdentityKeyPair, PreKey, SignedPreKey}
use winkd.Crypto.WebCrypto.{WebCrypto, ecdsa}
use winkd.Crypto.Keys.{generate_dh_key_pair, import_public, import_private}

module _ ⦃web : WebCrypto⦄ where
  unfoldable pub sign_pre_key : Str → Str → Result Str
  sign_pre_key identity_private pre_key_public = do
    signing_key ← import_private ecdsa identity_private
    message ← or_throw (base64_to_buf pre_key_public) dom_exception
    ok (buf_to_base64 (web.ecdsa_sign signing_key message))

  -- `catch { return false }`
  abbrev false_on_throw : Result Bool → Bool
  false_on_throw (ok b) = b
  false_on_throw (err e) = false

  unfoldable pub verify_pre_key : Str → Str → Str → Bool
  verify_pre_key identity_public pre_key_public signature = false_on_throw (do
    verify_key ← import_public ecdsa identity_public
    sig ← or_throw (base64_to_buf signature) dom_exception
    message ← or_throw (base64_to_buf pre_key_public) dom_exception
    or_throw (web.ecdsa_verify verify_key sig message) dom_exception)

  -- The pair of the given draw.
  unfoldable pub generate_identity_key_pair : ℕ → IdentityKeyPair
  generate_identity_key_pair draw =
      let kp = generate_dh_key_pair draw in
      record { public_key = kp.public_key_raw; private_key = kp.private_key_jwk }

  unfoldable pub generate_pre_key_pair : ℕ → ℕ → PreKey
  generate_pre_key_pair draw id =
      let kp = generate_dh_key_pair draw in
      record { id = id; public_key = kp.public_key_raw; private_key = kp.private_key_jwk }

  unfoldable pub generate_signed_pre_key_pair : ℕ → ℕ → Str → Result SignedPreKey
  generate_signed_pre_key_pair draw id identity_private =
      let kp = generate_dh_key_pair draw in
      do
        signature ← sign_pre_key identity_private kp.public_key_raw
        ok (record {
          id = id;
          public_key = kp.public_key_raw;
          private_key = kp.private_key_jwk;
          signature = signature;
        })

-- The random 16-bit number `buf[0]`: `buf[0] & 0x3fff` is the remainder by 2 ^ 14.
unfoldable pub new_registration_id : ℕ → ℕ
new_registration_id random = random % 16384 + 1
