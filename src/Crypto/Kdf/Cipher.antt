-- ===== src/Crypto/Kdf/Cipher.antt =====
-- AES-GCM with a 32-byte key: what is sealed can be opened.
use winkd.Prelude.{ℕ, zero, suc, ◌≡◌, refl, ap, [], ◌∷◌, arith, length, take}
use winkd.Codec.Hex.{Bytes, IsBytes}
use winkd.Codec.Base64.{buf_to_base64}
use winkd.Codec.Base64.Laws.{base64_to_buf-buf_to_base64, buf_to_base64-IsBytes}
use winkd.Result.{ok}
use winkd.Crypto.WebCrypto.{WebCrypto}
use winkd.Crypto.Assumptions.{IsWebCrypto}
use winkd.Crypto.Kdf.{AesGcmResult, aes_gcm_encrypt, aes_gcm_decrypt}
use winkd.Crypto.Kdf.Chain.{IsKey}

take-all : (n : ℕ) (bs : Bytes) → length bs ≡ n → take n bs ≡ bs
take-all zero [] h = refl
take-all zero (b ∷ bs) h = absurd (omega arith)
take-all (suc n) [] h = refl
take-all (suc n) (b ∷ bs) h = ap (λ r. b ∷ r) (take-all n bs (omega arith))

module _ ⦃web : WebCrypto⦄ (laws : IsWebCrypto web) where
  -- With a 32-byte key `aesGcmEncrypt` succeeds, `aesGcmDecrypt` with that key gives back the
  -- plaintext, and the ciphertext and the IV are texts of Latin-1 characters.
  pub aes_gcm_round_trip :
      (draw : ℕ) (key plaintext : Bytes)
      → IsKey key
      → (sealed : AesGcmResult) × (aes_gcm_encrypt draw key plaintext ≡ ok sealed)
        × (aes_gcm_decrypt key sealed.ciphertext sealed.iv ≡ ok plaintext)
        × IsBytes sealed.ciphertext
        × IsBytes sealed.iv
  unfolding aes_gcm_encrypt aes_gcm_decrypt
  aes_gcm_round_trip draw key plaintext h =
      let (k, e) = laws.import_aes_total key h.1 in
      let iv = web.random_values draw 12 in
      let ct = web.aes_encrypt k iv plaintext in
      (
        record { ciphertext = buf_to_base64 ct; iv = buf_to_base64 iv },
        rw (take-all 32 key h.1, e),
        rw (
          take-all 32 key h.1,
          e,
          base64_to_buf-buf_to_base64 iv (laws.random_bytes draw 12),
          base64_to_buf-buf_to_base64 ct (laws.aes_bytes k iv plaintext),
          laws.aes_round_trip k iv plaintext,
        ),
        buf_to_base64-IsBytes ct (laws.aes_bytes k iv plaintext),
        buf_to_base64-IsBytes iv (laws.random_bytes draw 12),
      )
