-- ===== src/Crypto/Kdf/Chain.antt =====
-- The symmetric-key ratchet, stated without hex: what `kdfChainKey` and `kdfRootKey` compute.
use winkd.Prelude.{
  ℕ, zero, suc, ◌≡◌, refl, Option, none, some, [], ◌∷◌, arith, length, length-take, length-drop,
  take, drop, All-take, All-drop, lit, Str,
}
use winkd.Codec.Hex.{Bytes, IsBytes, buf_to_hex, hex_to_buf}
use winkd.Codec.Hex.Laws.{hex_to_buf-buf_to_hex}
use winkd.Result.{ok}
use winkd.Crypto.WebCrypto.{WebCrypto}
use winkd.Crypto.Assumptions.{IsWebCrypto}
use winkd.Crypto.Kdf.{hkdf, hmac_sha256, kdf_root_key, kdf_chain_key}

-- 32 bytes.
abbrev pub IsKey : Bytes → Type 0
IsKey k = IsBytes k × (length k ≡ 32)

module _ ⦃web : WebCrypto⦄ where
  abbrev signed_or_empty : Option web.CryptoKey → Bytes → Bytes
  signed_or_empty none m = []
  signed_or_empty (some k) m = web.hmac_sign k m

  -- HMAC-SHA256; the empty array where the key is refused.
  mac : Bytes → Bytes → Bytes
  mac key m = signed_or_empty (web.import_hmac key) m

  -- The n-th chain key after `ck`, and the n-th message key.
  unfoldable pub chain : Bytes → ℕ → Bytes
  unfolding mac
  chain ck zero = ck
  chain ck (suc n) = mac (chain ck n) (0x02 ∷ [])

  pub message_key : Bytes → ℕ → Bytes
  unfolding mac
  message_key ck n = mac (chain ck n) (0x01 ∷ [])

module _ ⦃web : WebCrypto⦄ (laws : IsWebCrypto web) where
  hmac-mac : (key m : Bytes) → IsKey key → (hmac_sha256 key m ≡ ok (mac key m)) × IsKey (mac key m)
  unfolding hmac_sha256 mac
  hmac-mac [] m h = absurd (omega arith)
  hmac-mac (b ∷ key) m h =
      let (k, e) = laws.import_hmac_total b key in
      rw e (refl, (laws.hmac_bytes k m, laws.hmac_length k m))

  pub chain-IsKey : (ck : Bytes) (n : ℕ) → IsKey ck → IsKey (chain ck n)
  unfolding chain
  chain-IsKey ck zero h = h
  chain-IsKey ck (suc n) h = (hmac-mac (chain ck n) _ (chain-IsKey ck n h)).1

  pub message_key-IsKey : (ck : Bytes) (n : ℕ) → IsKey ck → IsKey (message_key ck n)
  unfolding message_key
  message_key-IsKey ck n h = (hmac-mac (chain ck n) _ (chain-IsKey ck n h)).1

  -- On the hex text of the n-th key of a chain, `kdfChainKey` returns the n-th message key and the
  -- hex text of the next chain key.
  pub kdf_chain_key-chain :
      (ck : Bytes) (n : ℕ)
      → IsKey ck
      → kdf_chain_key (buf_to_hex (chain ck n))
        ≡ ok (record {
          message_key = message_key ck n;
          next_chain_key = buf_to_hex (chain ck (suc n));
        })
  unfolding kdf_chain_key chain message_key
  kdf_chain_key-chain ck n h =
      let k = chain-IsKey ck n h in
      rw (
        hex_to_buf-buf_to_hex (chain ck n) k.0,
        (hmac-mac (chain ck n) (0x01 ∷ []) k).0,
        (hmac-mac (chain ck n) (0x02 ∷ []) k).0,
      )

  -- Both results of `kdfRootKey` are hex texts of 32 bytes.
  pub kdf_root_key-IsKey :
      (root : Str) (dh_output : Bytes)
      → (rk : Bytes) × (ck : Bytes) × (kdf_root_key root dh_output
          ≡ record { new_root_key = buf_to_hex rk; chain_key = buf_to_hex ck })
        × IsKey rk
        × IsKey ck
  unfolding kdf_root_key hkdf
  kdf_root_key-IsKey root dh_output =
      let out = hkdf dh_output (hex_to_buf root) (lit "WinkdRatchetRK v1") 64 in
      let bytes : IsBytes out = laws.hkdf_bytes _ _ _ _ in
      let len : length out ≡ 64 = laws.hkdf_length _ _ _ 64 in
      (
        take 32 out,
        drop 32 (take 64 out),
        refl,
        (All-take _ 32 out bytes, length-take 32 out (omega arith)),
        (
          All-drop _ 32 (take 64 out) (All-take _ 64 out bytes),
          omega (arith, length-drop 32 (take 64 out), length-take 64 out (omega arith)),
        ),
      )
