-- ===== src/Session/ForgedFirst.antt =====
-- `decrypt` of a first message that comes to nothing: what it leaves in the store.
use winkd.Prelude.{ℕ, suc, ◌≡◌, refl, ap, ◌∙◌, true, none, nat_eq, some, Str, arith, ◌==◌}
use winkd.Result.{ok, err, Error}
use winkd.KeyTypes.{
  RatchetSession, EncryptedEnvelope, WireMessage, X3dhParams, IdentityKeyPair, PreKey, SignedPreKey,
}
use winkd.KeyStore.{KeyStore, IsKeyStore}
use winkd.Crypto.WebCrypto.{WebCrypto}
use winkd.Crypto.Assumptions.{IsWebCrypto}
use winkd.Crypto.Kdf.{aes_gcm_decrypt}
use winkd.Crypto.Kdf.Chain.{message_key}
use winkd.Crypto.X3dh.{x3dh_respond}
use winkd.Crypto.X3dh.Agreement.{public_key}
use winkd.Session.Device.{Device, WireJson}
use winkd.Session.Ratchet.InOrder.{after_receive}
use winkd.Session.Manager.{decrypt, init_session_from_pre_key, consume_pre_key}
use winkd.Session.Messages.{Holds, load_session-store_session_self}
use winkd.Session.Handshake.Agreed.{Draws, Agreed}
use winkd.Session.Handshake.Responder.{
  HoldsKeys, Responds, consumed, init_session_from_pre_key-Responds, key_changed-Responds,
  retrieve_key-Responds,
}

module _ {T : Type 0} ⦃web : WebCrypto⦄ ⦃json : WireJson⦄ ⦃ks : KeyStore T⦄ (laws : IsWebCrypto web)
    (store_laws : IsKeyStore ks) where
  -- An envelope of type 1 names keys that the store holds, and is the first message of a sender who
  -- derived the agreed chain, but its ciphertext does not open: `decrypt` throws what AES-GCM
  -- threw, and whatever session there was with that peer is replaced by a new one, which receives
  -- on the sender's chain and counts message 0 as received.
  -- Assumes `IsWebCrypto` and `IsKeyStore`.
  pub decrypt_forged_first :
      (peer : Str) (d : Device T) (k : Draws) (a : Agreed k) (p : X3dhParams)
      (envelope : EncryptedEnvelope) (w : WireMessage) (e : Error)
      → Holds json envelope w
      → envelope.type ≡ 1
      → w.params ≡ some p
      → w.h.rk ≡ public_key k.ratchet
      → w.h.n ≡ 0
      → p.ik ≡ public_key k.identity
      → p.ek ≡ public_key k.ephemeral
      → HoldsKeys ks k p d.store
      → aes_gcm_decrypt (message_key a.first_chain 0) w.ct w.iv ≡ err e
      → (s : RatchetSession) × (d' : Device T) × Responds a d.draws s
        × (decrypt peer envelope d ≡ (err e, d'))
        × (ks.load_session peer d'.store ≡ some (after_receive a.first_chain s))
  unfolding decrypt
  decrypt_forged_first peer d k a p envelope w e (text, e1, e2) first ps rk n ik ek keys closed =
      let (s, made, r) = init_session_from_pre_key-Responds laws peer w p d k a ps rk ik ek keys in
      let same_key = key_changed-Responds laws a d.draws s w.h.rk r rk in
      let got = retrieve_key-Responds laws a d.draws s w.h.rk w.h.n r rk n in
      let is_first : (envelope.type == 1) ≡ true = ground (arith, first) in
      (
        s,
        record {
          store =
              ks.store_session peer (after_receive a.first_chain s)
                (ks.store_session peer s (consumed ks p.opk_id d.store));
          draws = suc d.draws;
        },
        r,
        rw (e1, e2, is_first, made, same_key, got, closed) refl,
        load_session-store_session_self ks store_laws peer _ _,
      )

  -- An envelope of type 1 names an identity key, a signed pre-key and a one-time pre-key that the
  -- store holds, but X3DH throws on the sender's keys: `decrypt` throws the same, and the one-time
  -- pre-key is gone from the store.
  -- Assumes `IsKeyStore`.
  pub decrypt_wastes_pre_key :
      (peer : Str) (d : Device T) (p : X3dhParams) (id : ℕ) (own : IdentityKeyPair)
      (spk : SignedPreKey) (opk : PreKey) (envelope : EncryptedEnvelope) (w : WireMessage)
      (e : Error)
      → Holds json envelope w
      → envelope.type ≡ 1
      → w.params ≡ some p
      → ks.get_identity_key_pair d.store ≡ some own
      → ks.load_signed_pre_key p.spk_id d.store ≡ some spk
      → p.opk_id ≡ some id
      → ks.load_pre_key id d.store ≡ some opk
      → x3dh_respond own.private_key spk.private_key (some opk.private_key) p.ik p.ek ≡ err e
      → (decrypt peer envelope d ≡ (err e, record d { store = ks.remove_pre_key id d.store }))
        × (ks.load_pre_key id (ks.remove_pre_key id d.store) ≡ none)
  unfolding decrypt init_session_from_pre_key
  decrypt_wastes_pre_key peer d p id own spk opk envelope w e (text, e1, e2) first ps ours signed
        named held fails =
      let is_first : (envelope.type == 1) ≡ true = ground (arith, first) in
      let taken : consume_pre_key (some id) d
          ≡ (ok (some opk.private_key), record d { store = ks.remove_pre_key id d.store }) =
        rw (held, consume_pre_key) refl in
      (
        rw (e1, e2, is_first, ours, ps, signed, named, taken, fails) refl,
        ap (λ v. v.pre_keys id) (store_laws.remove_pre id d.store) ∙ ground arith,
      )
