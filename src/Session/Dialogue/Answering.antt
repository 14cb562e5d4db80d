-- ===== src/Session/Dialogue/Answering.antt =====
-- The replier answers, and the two change places.
use winkd.Prelude.{
  ℕ, suc, ◌≤◌, ◌≡◌, refl, sym, ap, ◌∙◌, true, false, some, Str, arith, ◌==◌, str_eq,
}
use winkd.Codec.Hex.{Bytes, buf_to_hex}
use winkd.Result.{ok}
use winkd.KeyTypes.{RatchetSession, EncryptedEnvelope, WireMessage}
use winkd.KeyStore.{KeyStore, IsKeyStore}
use winkd.Crypto.WebCrypto.{WebCrypto}
use winkd.Crypto.Assumptions.{IsWebCrypto, is_well_formed}
use winkd.Crypto.Keys.{dh}
use winkd.Crypto.Kdf.{aes_gcm_decrypt, kdf_root_key}
use winkd.Crypto.Kdf.Chain.{message_key, kdf_root_key-IsKey}
use winkd.Crypto.X3dh.Agreement.{public_key, private_key, dh_total}
use winkd.Session.Device.{Device, WireJson}
use winkd.Session.Ratchet.{key_changed}
use winkd.Session.Ratchet.InOrder.{after_receive}
use winkd.Session.Manager.{decrypt, generate_key_pair, wire_type}
use winkd.Session.Messages.{IsWireJson, Holds, load_session-store_session_self}
use winkd.Session.Sending.{after_send, encrypt-Sends}
use winkd.Session.Dialogue.{Paired, Talking, AreDifferent, relay}
use winkd.Session.Dialogue.Holding.{first_params-none}
use winkd.Session.Dialogue.Turning.{
  turned, ratchet_receive-Paired, ratchet_send-turned, retrieve_key-turned, turn-Paired,
}

module _ {S : Type 0} ⦃web : WebCrypto⦄ ⦃json : WireJson⦄ ⦃hold : KeyStore S⦄
    (laws : IsWebCrypto web) where
  -- The first message of the replier's chain opens, and the holder's session has turned.
  decrypt_turn :
      (peer plaintext : Str) (i j : ℕ) (d : Device S) (a b : RatchetSession) (p : Paired i j a b)
      (envelope : EncryptedEnvelope) (w : WireMessage) (bits root send_key : Bytes)
      → hold.load_session peer d.store ≡ some a
      → str_eq (public_key p.old_draw) (public_key j) ≡ false
      → dh (private_key d.draws) (public_key j) ≡ ok bits
      → kdf_root_key b.root_key bits
        ≡ record { new_root_key = buf_to_hex root; chain_key = buf_to_hex send_key }
      → envelope.type ≡ 2
      → Holds json envelope w
      → w.h ≡ record { rk = public_key j; n = 0; pn = b.prev_send_count }
      → aes_gcm_decrypt (message_key p.reply_key 0) w.ct w.iv ≡ ok (web.utf8_encode plaintext)
      → is_well_formed plaintext ≡ true
      → decrypt peer envelope d ≡ (
        ok plaintext,
        record {
          store =
              hold.store_session peer
                (after_receive p.reply_key (turned j d.draws p.reply_key root send_key a))
                d.store;
          draws = suc d.draws;
        },
      )
  unfolding decrypt generate_key_pair
  decrypt_turn peer plaintext i j d a b p envelope w bits root send_key loaded new e1 e2 later
        (text, d1, d2) head opened fine =
      let changed : key_changed a.their_ratchet_public (public_key j) ≡ true =
        rw (p.known, new) refl in
      let not_first : (envelope.type == 1) ≡ false = ground (arith, later) in
      rw (d1, d2, not_first, loaded, head, changed, ratchet_receive-Paired laws i j a b p)
        (rw
          (
            ratchet_send-turned laws i j d.draws bits root send_key a b p e1 e2,
            retrieve_key-turned laws i j d.draws root send_key a b p,
            opened,
            laws.utf8_round_trip plaintext fine,
          )
          refl)

module _ {S T : Type 0} ⦃web : WebCrypto⦄ ⦃json : WireJson⦄ ⦃hold : KeyStore S⦄ ⦃reply : KeyStore T⦄
    (laws : IsWebCrypto web) (json_laws : IsWireJson json) (hold_laws : IsKeyStore hold)
    (reply_laws : IsKeyStore reply) where
  -- What the replier sends arrives, and the two change places.
  pub relay_turns :
      (limit : ℕ) (to_replier to_holder plaintext : Str) (dh : Device S) (dr : Device T)
      → AreDifferent limit
      → (t : Talking hold reply to_replier to_holder dh dr) → dr.draws ≤ limit
      → is_well_formed plaintext ≡ true
      → (sent : Device T) × (got : Device S) × (relay to_holder to_replier plaintext dr dh
          ≡ (ok plaintext, sent, got))
        × Talking reply hold to_holder to_replier sent got
        × (sent.draws ≡ suc dr.draws)
        × (got.draws ≡ suc dh.draws)
  unfolding relay
  relay_turns limit to_replier to_holder plaintext dh dr different t room fine =
      let p = t.paired in
      let j = t.replier_draw in
      let (envelope, w, run, holds, head, _, type, opened) =
        encrypt-Sends laws json_laws to_holder plaintext dr p.reply_key t.replier t.replied
          p.replies in
      let type2 : envelope.type ≡ 2 =
        type ∙ ap wire_type (first_params-none t.replier p.replier_pending) in
      let h : w.h ≡ record { rk = public_key j; n = 0; pn = t.replier.prev_send_count } =
        head ∙ rw (p.replier_public, p.unsent) refl in
      let (bits, e1) = dh_total laws dh.draws j in
      let (root, send_key, e2, _, key) = kdf_root_key-IsKey laws t.replier.root_key bits in
      let got =
        decrypt_turn laws to_replier plaintext t.holder_draw j dh t.holder t.replier p envelope w
          bits root send_key t.held
          (different p.old_draw j p.older (let e = t.replier_drawn in omega arith)) e1 e2 type2
          holds h
          (ap (λ m. aes_gcm_decrypt (message_key p.reply_key m) w.ct w.iv) (sym p.unsent) ∙ opened)
          fine in
      let next = after_receive p.reply_key (turned j dh.draws p.reply_key root send_key t.holder) in
      (
        record {
          store = reply.store_session to_holder (after_send p.reply_key t.replier) dr.store;
          draws = suc dr.draws;
        },
        record { store = hold.store_session to_replier next dh.store; draws = suc dh.draws },
        rw (run, got) refl,
        record {
          holder_draw = j;
          replier_draw = dh.draws;
          holder = after_send p.reply_key t.replier;
          replier = next;
          held = load_session-store_session_self reply reply_laws to_holder _ _;
          replied = load_session-store_session_self hold hold_laws to_replier _ _;
          paired =
              turn-Paired laws t.holder_draw j dh.draws bits root send_key t.holder t.replier p
                t.holder_drawn e1 e2 key;
          holder_drawn = (let e = t.replier_drawn in omega arith);
          replier_drawn = omega arith;
        },
        refl,
        refl,
      )
