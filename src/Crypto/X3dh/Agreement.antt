-- ===== src/Crypto/X3dh/Agreement.antt =====
-- Both sides of X3DH derive the same secret.
use winkd.Prelude.{ℕ, ◌≡◌, refl, sym, ap, ◌∙◌, ◌++◌, Option, none, some, arith, Str, length, ◌<◌}
use winkd.Prelude.{str_eq_instance}
use winkd.Codec.Base64.Laws.{
  base64_to_buf-buf_to_base64, buf_to_base64-IsBytes, length-buf_to_base64_pos,
}
use winkd.Codec.Hex.{Bytes, IsBytes}
use winkd.Result.{ok, dom_exception, or_throw}
use winkd.Crypto.WebCrypto.{WebCrypto, ecdh}
use winkd.Crypto.Assumptions.{IsWebCrypto}
use winkd.Crypto.Keys.{generate_dh_key_pair, dh}
use winkd.Crypto.X3dh.{append_fourth, shared_secret, x3dh, x3dh_respond}

-- The halves of the key pair of a draw, and of an optional one.
module _ ⦃web : WebCrypto⦄ where
  abbrev pub public_key : ℕ → Str
  public_key i = (generate_dh_key_pair i).public_key_raw

  abbrev pub private_key : ℕ → Str
  private_key i = (generate_dh_key_pair i).private_key_jwk

  abbrev pub public_half : Option ℕ → Option Str
  public_half none = none
  public_half (some i) = some (public_key i)

  abbrev pub private_half : Option ℕ → Option Str
  private_half none = none
  private_half (some i) = some (private_key i)

module _ ⦃web : WebCrypto⦄ (laws : IsWebCrypto web) where
  dh-generated :
      (i j : ℕ)
      → dh (private_key i) (public_key j)
        ≡ or_throw (web.ecdh_bits (web.generate_key i).1 (web.generate_key j).0 256) dom_exception
  unfolding dh generate_dh_key_pair
  dh-generated i j = rw (
    laws.parse_stringify,
    laws.import_jwk_export ecdh i,
    base64_to_buf-buf_to_base64 (web.export_raw (web.generate_key j).0) (laws.export_raw_bytes j),
    laws.import_raw_export ecdh j,
  )

  -- Diffie-Hellman between two generated pairs gives both sides the same result.
  pub dh_comm : (i j : ℕ) → dh (private_key i) (public_key j) ≡ dh (private_key j) (public_key i)
  dh_comm i j =
      dh-generated i j
      ∙ ap (λ o. or_throw o dom_exception) (laws.ecdh_comm i j)
      ∙ sym (dh-generated j i)

  fourth_secret :
      (ek : ℕ) (opk : Option ℕ)
      → (elim (public_half opk) [ none ↦ none | some key ↦ some (dh (private_key ek) key) ])
        ≡ (elim (private_half opk) [ none ↦ none | some key ↦ some (dh key (public_key ek)) ])
  fourth_secret ek none = refl
  fourth_secret ek (some i) = ap some (dh_comm ek i)

  -- Public keys are base64 texts, and not empty.
  pub public_key-IsBytes : (i : ℕ) → IsBytes (public_key i)
  unfolding generate_dh_key_pair
  public_key-IsBytes i = buf_to_base64-IsBytes _ (laws.export_raw_bytes i)

  pub length-public_key_pos : (i : ℕ) → 0 < length (public_key i)
  unfolding generate_dh_key_pair
  length-public_key_pos i =
      length-buf_to_base64_pos _ (let n = laws.export_raw_length i in omega arith)

  pub dh_total : (i j : ℕ) → (bits : Bytes) × (dh (private_key i) (public_key j) ≡ ok bits)
  dh_total i j =
      let (bits, e) = laws.ecdh_total i j in
      (bits, dh-generated i j ∙ ap (λ o. or_throw o dom_exception) e)

  fourth_total :
      (ek : ℕ) (opk : Option ℕ) (dh_input : Bytes)
      → (out : Bytes) × (append_fourth
            (elim (public_half opk) [ none ↦ none | some key ↦ some (dh (private_key ek) key) ])
            dh_input
          ≡ ok out)
  unfolding append_fourth
  fourth_total ek none dh_input = (dh_input, refl)
  fourth_total ek (some i) dh_input = let (bits, e) = dh_total ek i in (dh_input ++ bits, rw e)

  x3dh_total :
      (ia ek ib spk : ℕ) (opk : Option ℕ)
      → (secret : Bytes) × (x3dh
            (private_key ia)
            (private_key ek)
            (public_key ib)
            (public_key spk)
            (public_half opk)
          ≡ ok secret)
  unfolding x3dh
  x3dh_total ia ek ib spk opk =
      let (d1, e1) = dh_total ia spk in
      let (d2, e2) = dh_total ek ib in
      let (d3, e3) = dh_total ek spk in
      let (out, e4) = fourth_total ek opk (d1 ++ d2 ++ d3) in
      (shared_secret out, rw (e1, e2, e3, e4))

  x3dh-eq-x3dh_respond :
      (ia ek ib spk : ℕ) (opk : Option ℕ)
      → x3dh (private_key ia) (private_key ek) (public_key ib) (public_key spk) (public_half opk)
        ≡ x3dh_respond
            (private_key ib)
            (private_key spk)
            (private_half opk)
            (public_key ia)
            (public_key ek)
  unfolding x3dh x3dh_respond
  x3dh-eq-x3dh_respond ia ek ib spk opk =
      rw (dh_comm ia spk, dh_comm ek ib, dh_comm ek spk, fourth_secret ek opk)

  -- If Alice runs `x3dh` with her identity key and an ephemeral key on the public halves of Bob's
  -- identity key, signed pre-key and (if there is one) one-time pre-key, and Bob runs
  -- `x3dhRespond` with the private halves on Alice's two public keys, then both return, and they
  -- return the same secret. All keys come from `generateDHKeyPair`.
  -- Assumes `IsWebCrypto`.
  pub x3dh-agreement :
      (ia ek ib spk : ℕ) (opk : Option ℕ)
      → (secret : Bytes) × (x3dh
            (private_key ia)
            (private_key ek)
            (public_key ib)
            (public_key spk)
            (public_half opk)
          ≡ ok secret)
        × (x3dh_respond
              (private_key ib)
              (private_key spk)
              (private_half opk)
              (public_key ia)
              (public_key ek)
            ≡ ok secret)
  x3dh-agreement ia ek ib spk opk =
      let (secret, e) = x3dh_total ia ek ib spk opk in
      (secret, e, sym (x3dh-eq-x3dh_respond ia ek ib spk opk) ∙ e)
