-- ===== src/Crypto/PreKeys/Signing.antt =====
-- A generated signed pre-key carries a signature that verifies.
use winkd.Prelude.{ℕ, ◌≤◌, ◌≡◌, refl, true, arith, str_eq_instance}
use winkd.Codec.Base64.{buf_to_base64}
use winkd.Codec.Base64.Laws.{base64_to_buf-buf_to_base64}
use winkd.Result.{ok}
use winkd.KeyTypes.{SignedPreKey}
use winkd.Crypto.WebCrypto.{WebCrypto, ecdsa}
use winkd.Crypto.Assumptions.{IsWebCrypto}
use winkd.Crypto.Keys.{generate_dh_key_pair, import_public, import_private}
use winkd.Crypto.X3dh.Agreement.{public_key, private_key}
use winkd.Crypto.PreKeys.{
  sign_pre_key, verify_pre_key, generate_signed_pre_key_pair, new_registration_id,
}

module _ ⦃web : WebCrypto⦄ (laws : IsWebCrypto web) where
  -- `generateSignedPreKeyPair` under a generated identity key succeeds, and `verifyPreKey` accepts
  -- its public key and signature under the public identity key.
  -- Assumes `IsWebCrypto`.
  pub generate_signed_pre_key_pair-verifies :
      (identity draw id : ℕ)
      → (k : SignedPreKey) × (generate_signed_pre_key_pair draw id (private_key identity) ≡ ok k)
        × (k.public_key ≡ public_key draw)
        × (verify_pre_key (public_key identity) k.public_key k.signature ≡ true)
  unfolding generate_signed_pre_key_pair sign_pre_key verify_pre_key import_public import_private
      generate_dh_key_pair
  generate_signed_pre_key_pair-verifies identity draw id =
      let raw = web.export_raw (web.generate_key draw).0 in
      let message = base64_to_buf-buf_to_base64 raw (laws.export_raw_bytes draw) in
      let sig = web.ecdsa_sign (web.generate_key identity).1 raw in
      (
        record {
          id = id;
          public_key = public_key draw;
          private_key = private_key draw;
          signature = buf_to_base64 sig;
        },
        rw (laws.parse_stringify, laws.import_jwk_export ecdsa identity, message),
        refl,
        rw (
          base64_to_buf-buf_to_base64 _ (laws.export_raw_bytes identity),
          laws.import_raw_export ecdsa identity,
          base64_to_buf-buf_to_base64 sig (laws.sign_bytes _ raw),
          message,
          laws.verify_sign identity raw,
        ),
      )

-- A registration id lies between 1 and 16384.
pub new_registration_id_range :
    (random : ℕ) → (1 ≤ new_registration_id random) × (new_registration_id random ≤ 16384)
unfolding new_registration_id
new_registration_id_range random = omega arith
