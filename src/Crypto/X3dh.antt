-- ===== src/Crypto/X3dh.antt =====
-- X3DH key agreement (packages/core/src/encryption/crypto.ts).
pub mod Agreement
use winkd.Prelude.{◌++◌, Option, none, some, Str, lit, replicate}
use winkd.Codec.Hex.{Bytes}
use winkd.Result.{Result, ok, ◌>>=◌}
use winkd.Crypto.WebCrypto.{WebCrypto}
use winkd.Crypto.Keys.{dh}
use winkd.Crypto.Kdf.{hkdf}

module _ ⦃web : WebCrypto⦄ where
  -- The optional fourth secret, appended to the first three.
  append_fourth : Option (Result Bytes) → Bytes → Result Bytes
  append_fourth none dh_input = ok dh_input
  append_fourth (some fourth) dh_input = do dh4 ← fourth; ok (dh_input ++ dh4)

  -- The derivation with which both sides end.
  shared_secret : Bytes → Bytes
  unfolding hkdf
  shared_secret dh_input =
      hkdf (replicate 32 0xff ++ dh_input) (replicate 32 0) (lit "Winkd X3DH v1") 32

  unfoldable pub x3dh : Str → Str → Str → Str → Option Str → Result Bytes
  unfolding append_fourth shared_secret
  x3dh my_identity_priv my_ephemeral_priv their_identity_pub their_signed_pre_key_pub
        their_one_time =
      do
        dh1 ← dh my_identity_priv their_signed_pre_key_pub
        dh2 ← dh my_ephemeral_priv their_identity_pub
        dh3 ← dh my_ephemeral_priv their_signed_pre_key_pub
        dh_input ←
            append_fourth
              (elim their_one_time [ none ↦ none | some opk ↦ some (dh my_ephemeral_priv opk) ])
              (dh1 ++ dh2 ++ dh3)
        ok (shared_secret dh_input)

  unfoldable pub x3dh_respond : Str → Str → Option Str → Str → Str → Result Bytes
  unfolding append_fourth shared_secret
  x3dh_respond my_identity_priv my_signed_pre_key_priv my_one_time their_identity_pub
        their_ephemeral =
      do
        dh1 ← dh my_signed_pre_key_priv their_identity_pub
        dh2 ← dh my_identity_priv their_ephemeral
        dh3 ← dh my_signed_pre_key_priv their_ephemeral
        dh_input ←
            append_fourth
              (elim my_one_time [ none ↦ none | some opk ↦ some (dh opk their_ephemeral) ])
              (dh1 ++ dh2 ++ dh3)
        ok (shared_secret dh_input)
