-- ===== src/Crypto/Keys.antt =====
-- Key pairs, key import and ECDH (packages/core/src/encryption/crypto.ts).
use winkd.Prelude.{ℕ, Str, lit, str_eq_instance}
use winkd.Prelude.Dict
use winkd.Codec.Hex.{Bytes}
use winkd.Codec.Base64.{buf_to_base64, base64_to_buf}
use winkd.Result.{Result, dom_exception, syntax_error, ◌>>=◌, or_throw}
use winkd.Crypto.WebCrypto.{WebCrypto, Algorithm, ecdh}

pub record DhKeyPair : Type 0 where
  pub public_key_raw : Str
  pub private_key_jwk : Str

module _ ⦃web : WebCrypto⦄ where
  -- The key pair that the given draw yields.
  unfoldable pub generate_dh_key_pair : ℕ → DhKeyPair
  generate_dh_key_pair draw =
      let (public, private) = web.generate_key draw in
      record {
        public_key_raw = buf_to_base64 (web.export_raw public);
        private_key_jwk = web.stringify_jwk (Dict.remove (lit "key_ops") (web.export_jwk private));
      }

  unfoldable pub import_public : Algorithm → Str → Result web.CryptoKey
  import_public algorithm b64 = do
    raw ← or_throw (base64_to_buf b64) dom_exception
    or_throw (web.import_raw algorithm raw) dom_exception

  unfoldable pub import_private : Algorithm → Str → Result web.CryptoKey
  import_private algorithm jwk_str = do
    jwk ← or_throw (web.parse_jwk jwk_str) syntax_error
    or_throw (web.import_jwk algorithm jwk) dom_exception

  unfoldable pub dh : Str → Str → Result Bytes
  unfolding import_public import_private
  dh private_key_jwk public_key_b64 = do
    priv ← import_private ecdh private_key_jwk
    key ← import_public ecdh public_key_b64
    or_throw (web.ecdh_bits priv key 256) dom_exception
