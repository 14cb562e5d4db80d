-- ===== src/Session/Handshake/Agreed.antt =====
-- What X3DH and the first step of the Double Ratchet make both sides agree on.
use winkd.Prelude.{ℕ, ◌≡◌, ◌∙◌, Option}
use winkd.Codec.Hex.{Bytes, buf_to_hex}
use winkd.Result.{ok}
use winkd.Crypto.WebCrypto.{WebCrypto}
use winkd.Crypto.Assumptions.{IsWebCrypto}
use winkd.Crypto.Keys.{dh}
use winkd.Crypto.Kdf.{kdf_root_key}
use winkd.Crypto.Kdf.Chain.{IsKey, kdf_root_key-IsKey}
use winkd.Crypto.X3dh.{x3dh, x3dh_respond}
use winkd.Crypto.X3dh.Agreement.{
  public_key, private_key, public_half, private_half, dh_comm, dh_total, x3dh-agreement,
}

-- The draws of the initiator's identity, ephemeral and ratchet keys, and of the responder's
-- identity key, signed pre-key and one-time pre-key.
pub record Draws : Type 0 where
  pub identity : ℕ
  pub ephemeral : ℕ
  pub ratchet : ℕ
  pub their_identity : ℕ
  pub signed_pre_key : ℕ
  pub one_time : Option ℕ

module _ ⦃web : WebCrypto⦄ where
  pub record Agreed (k : Draws) : Type 0 where
    pub secret : Bytes
    pub bits : Bytes
    pub root : Bytes
    pub first_chain : Bytes
    pub initiator_secret :
        x3dh
          (private_key k.identity)
          (private_key k.ephemeral)
          (public_key k.their_identity)
          (public_key k.signed_pre_key)
          (public_half k.one_time)
        ≡ ok secret
    pub responder_secret :
        x3dh_respond
          (private_key k.their_identity)
          (private_key k.signed_pre_key)
          (private_half k.one_time)
          (public_key k.identity)
          (public_key k.ephemeral)
        ≡ ok secret
    pub initiator_bits : dh (private_key k.ratchet) (public_key k.signed_pre_key) ≡ ok bits
    pub responder_bits : dh (private_key k.signed_pre_key) (public_key k.ratchet) ≡ ok bits
    pub root_step :
        kdf_root_key (buf_to_hex secret) bits
        ≡ record { new_root_key = buf_to_hex root; chain_key = buf_to_hex first_chain }
    pub chain_is_key : IsKey first_chain

  pub agree : IsWebCrypto web → (k : Draws) → Agreed k
  agree laws k =
      let (secret, e1, e2) =
        x3dh-agreement laws k.identity k.ephemeral k.their_identity k.signed_pre_key k.one_time in
      let (bits, e3) = dh_total laws k.ratchet k.signed_pre_key in
      let (root, ck, e4, _, key) = kdf_root_key-IsKey laws (buf_to_hex secret) bits in
      record {
        secret = secret;
        bits = bits;
        root = root;
        first_chain = ck;
        initiator_secret = e1;
        responder_secret = e2;
        initiator_bits = e3;
        responder_bits = dh_comm laws k.signed_pre_key k.ratchet ∙ e3;
        root_step = e4;
        chain_is_key = key;
      }
