-- ===== src/Crypto/Assumptions.antt =====
-- What the code relies on of the browser: documented behaviour of SubtleCrypto, JSON and the
-- text codecs. None of it is proved here.
use winkd.Prelude.{
  ℕ, ◌*◌, ◌≡◌, Bool, true, false, not, ◌&&◌, some, [], ◌∷◌, Str, lit, length, leb, str_eq_instance,
  if◌then◌else◌,
}
use winkd.Prelude.Dict
use winkd.Codec.Hex.{Bytes, IsBytes}
use winkd.Crypto.WebCrypto.{WebCrypto, Algorithm, Jwk}

abbrev is_high : ℕ → Bool
is_high c = leb 0xd800 c && leb c 0xdbff

abbrev is_low : ℕ → Bool
is_low c = leb 0xdc00 c && leb c 0xdfff

-- `after_high`: the unit before was a high surrogate.
well_formed_from : Bool → Str → Bool
well_formed_from after_high [] = not after_high
well_formed_from after_high (c ∷ s) =
    (if after_high then is_low c else not (is_low c))
    && well_formed_from (not after_high && is_high c) s

-- A text with no lone surrogate: the encoder replaces those.
unfoldable pub is_well_formed : Str → Bool
unfolding well_formed_from
is_well_formed = well_formed_from false

pub record IsWebCrypto (web : WebCrypto) : Type 0 where
  pub parse_stringify : (jwk : Jwk) → web.parse_jwk (web.stringify_jwk jwk) ≡ some jwk
  pub import_raw_export :
      (a : Algorithm) (i : ℕ)
      → web.import_raw a (web.export_raw (web.generate_key i).0) ≡ some (web.generate_key i).0
  pub export_raw_bytes : (i : ℕ) → IsBytes (web.export_raw (web.generate_key i).0)
  -- an uncompressed point of P-256
  pub export_raw_length : (i : ℕ) → length (web.export_raw (web.generate_key i).0) ≡ 65
  -- also without the member that restricts the use of the key
  pub import_jwk_export :
      (a : Algorithm) (i : ℕ)
      → web.import_jwk a (Dict.remove (lit "key_ops") (web.export_jwk (web.generate_key i).1))
        ≡ some (web.generate_key i).1
  pub ecdh_total :
      (i j : ℕ)
      → (bits : Bytes) × (web.ecdh_bits (web.generate_key i).1 (web.generate_key j).0 256
          ≡ some bits)
  pub ecdh_comm :
      (i j : ℕ)
      → web.ecdh_bits (web.generate_key i).1 (web.generate_key j).0 256
        ≡ web.ecdh_bits (web.generate_key j).1 (web.generate_key i).0 256
  pub hkdf_length :
      (ikm salt info : Bytes) (n : ℕ) → length (web.hkdf_bits ikm salt info (n * 8)) ≡ n
  pub hkdf_bytes : (ikm salt info : Bytes) (n : ℕ) → IsBytes (web.hkdf_bits ikm salt info n)
  -- HMAC refuses the empty key alone
  pub import_hmac_total :
      (b : ℕ) (bs : Bytes) → (k : web.CryptoKey) × (web.import_hmac (b ∷ bs) ≡ some k)
  pub hmac_length : (k : web.CryptoKey) (m : Bytes) → length (web.hmac_sign k m) ≡ 32
  pub hmac_bytes : (k : web.CryptoKey) (m : Bytes) → IsBytes (web.hmac_sign k m)
  pub import_aes_total :
      (bs : Bytes) → length bs ≡ 32 → (k : web.CryptoKey) × (web.import_aes bs ≡ some k)
  pub aes_round_trip :
      (k : web.CryptoKey) (iv m : Bytes) → web.aes_decrypt k iv (web.aes_encrypt k iv m) ≡ some m
  pub aes_bytes : (k : web.CryptoKey) (iv m : Bytes) → IsBytes (web.aes_encrypt k iv m)
  pub random_bytes : (draw n : ℕ) → IsBytes (web.random_values draw n)
  pub sha512_length : (m : Bytes) → length (web.sha512 m) ≡ 64
  pub verify_sign :
      (i : ℕ) (m : Bytes)
      → web.ecdsa_verify (web.generate_key i).0 (web.ecdsa_sign (web.generate_key i).1 m) m
        ≡ some true
  pub sign_bytes : (k : web.CryptoKey) (m : Bytes) → IsBytes (web.ecdsa_sign k m)
  pub utf8_round_trip :
      (s : Str) → is_well_formed s ≡ true → web.utf8_decode (web.utf8_encode s) ≡ s
