-- ===== src/Session/Sending.antt =====
-- `encrypt` on a session that holds a sending chain.
use winkd.Prelude.{ℕ, suc, ◌≡◌, refl, Bool, false, ◌&&◌, ◌==◌, arith, some, Str}
use winkd.Codec.Hex.{Bytes, IsBytes, buf_to_hex}
use winkd.Result.{ok}
use winkd.KeyTypes.{RatchetSession, EncryptedEnvelope, WireMessage}
use winkd.KeyStore.{KeyStore}
use winkd.Crypto.WebCrypto.{WebCrypto}
use winkd.Crypto.Assumptions.{IsWebCrypto}
use winkd.Crypto.Kdf.{aes_gcm_decrypt}
use winkd.Crypto.Kdf.Chain.{
  IsKey, chain, message_key, chain-IsKey, message_key-IsKey, kdf_chain_key-chain,
}
use winkd.Crypto.Kdf.Cipher.{aes_gcm_round_trip}
use winkd.Session.Device.{Device, WireJson}
use winkd.Session.Ratchet.{first_params}
use winkd.Session.Ratchet.Delivery.{truthy-hex}
use winkd.Session.Manager.{encrypt, wire_params, wire_type, pending_after, or_zero}
use winkd.Session.Messages.{IsWireJson, IsLatin1Params, Holds, btoa-stringify}

module _ ⦃web : WebCrypto⦄ where
  -- The session sends on the chain that began with `ck`, at the number that its counter shows.
  pub record Sends (ck : Bytes) (s : RatchetSession) : Type 0 where
    pub key : IsKey ck
    pub at_chain : s.send_chain_key ≡ some (buf_to_hex (chain ck s.send_count))
    pub public_latin1 : IsBytes s.our_ratchet_public
    pub params_latin1 : IsLatin1Params (wire_params (first_params s))

  -- The session after a message was sent.
  unfoldable pub after_send : Bytes → RatchetSession → RatchetSession
  after_send ck s = record s {
    send_chain_key = some (buf_to_hex (chain ck (suc s.send_count)));
    send_count = suc s.send_count;
    pending_pre_key_msg = pending_after (first_params s) s.pending_pre_key_msg;
  }

no_params : (initiator : Bool) (n : ℕ) → (initiator && suc n == 0) ≡ false
no_params initiator n = ground arith

-- One message further on, the session sends on the same chain.
pub after_send-Sends :
    ⦃web : WebCrypto⦄ → (ck : Bytes) (s : RatchetSession) → Sends ck s → Sends ck (after_send ck s)
unfolding after_send first_params
after_send-Sends ck s v = record {
  key = v.key;
  at_chain = refl;
  public_latin1 = v.public_latin1;
  params_latin1 = rw (no_params s.is_initiator s.send_count) tt;
}

module _ {S : Type 0} ⦃web : WebCrypto⦄ ⦃json : WireJson⦄ ⦃ks : KeyStore S⦄ (laws : IsWebCrypto web)
    (json_laws : IsWireJson json) where
  -- On a session that holds a sending chain, `encrypt` succeeds: the envelope decodes to a message
  -- with the session's ratchet key and its counters, whose ciphertext opens under the chain's key
  -- of that number; it is of type 1 and carries the X3DH parameters exactly on an initiator's first
  -- message; and all that changes on the device is that the session is stored one message further
  -- on, and that one random value is used up.
  pub encrypt-Sends :
      (peer plaintext : Str) (d : Device S) (ck : Bytes) (s : RatchetSession)
      → ks.load_session peer d.store ≡ some s
      → Sends ck s
      → (envelope : EncryptedEnvelope) × (w : WireMessage) × (encrypt peer plaintext d ≡ (
        ok envelope,
        record d { store = ks.store_session peer (after_send ck s) d.store; draws = suc d.draws },
      ))
        × Holds json envelope w
        × (w.h ≡ record { rk = s.our_ratchet_public; n = s.send_count; pn = s.prev_send_count })
        × (w.params ≡ wire_params (first_params s))
        × (envelope.type ≡ wire_type (first_params s))
        × (aes_gcm_decrypt (message_key ck s.send_count) w.ct w.iv ≡ ok (web.utf8_encode plaintext))
  unfolding encrypt after_send first_params buf_to_hex
  encrypt-Sends peer plaintext d ck s loaded v =
      let n = s.send_count in
      let (sealed, e, opened, ct_ok, iv_ok) =
        aes_gcm_round_trip laws d.draws (message_key ck n) (web.utf8_encode plaintext)
          (message_key-IsKey laws ck n v.key) in
      let w : WireMessage = record {
        h = record { rk = s.our_ratchet_public; n = n; pn = s.prev_send_count };
        ct = sealed.ciphertext;
        iv = sealed.iv;
        params = wire_params (first_params s);
      } in
      let (payload, encoded, decoded) =
        btoa-stringify json json_laws w (v.public_latin1, ct_ok, iv_ok, v.params_latin1) in
      (
        record {
          type = wire_type (first_params s);
          ciphertext = payload;
          registration_id = or_zero (ks.get_local_registration_id d.store);
        },
        w,
        rw (
          loaded,
          v.at_chain,
          truthy-hex (chain ck n) (chain-IsKey laws ck n v.key),
          kdf_chain_key-chain laws ck n v.key,
          e,
          encoded,
        ),
        (json.stringify w, decoded, json_laws.parse_stringify w),
        refl,
        refl,
        refl,
        opened,
      )
