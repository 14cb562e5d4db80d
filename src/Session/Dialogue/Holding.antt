-- ===== src/Session/Dialogue/Holding.antt =====
-- The holder sends once more.
use winkd.Prelude.{
  ℕ, suc, ◌≡◌, refl, sym, ap, subst, ◌∙◌, true, false, none, some, Str, arith, ◌==◌, inl, inr,
}
use winkd.Codec.Hex.{Bytes}
use winkd.Result.{ok}
use winkd.KeyTypes.{RatchetSession, EncryptedEnvelope, WireMessage}
use winkd.KeyStore.{KeyStore, IsKeyStore}
use winkd.Crypto.WebCrypto.{WebCrypto}
use winkd.Crypto.Assumptions.{IsWebCrypto, is_well_formed}
use winkd.Crypto.Kdf.{aes_gcm_decrypt}
use winkd.Crypto.Kdf.Chain.{message_key}
use winkd.Crypto.X3dh.Agreement.{public_key}
use winkd.Session.Device.{Device, WireJson}
use winkd.Session.Ratchet.{first_params, key_changed, retrieve_key}
use winkd.Session.Ratchet.Delivery.{Receives}
use winkd.Session.Ratchet.InOrder.{
  CaughtUp, before, after_receive, retrieve_key_next, after_receive-Receives,
}
use winkd.Session.Manager.{decrypt, wire_type, pending_after}
use winkd.Session.Messages.{IsWireJson, Holds, load_session-store_session_self}
use winkd.Session.Receiving.{key_changed_same}
use winkd.Session.Sending.{after_send, after_send-Sends, encrypt-Sends}
use winkd.Session.Dialogue.{Paired, Talking, relay}

-- With nothing pending, no parameters are sent.
pub first_params-none : (s : RatchetSession) → s.pending_pre_key_msg ≡ none → first_params s ≡ none
unfolding first_params
first_params-none s e = rw e (ground arith)

module _ ⦃web : WebCrypto⦄ (laws : IsWebCrypto web) where
  -- Sending leaves the receiving chain as it is.
  pub CaughtUp-after_send :
      (ck : Bytes) (n : ℕ) (s : RatchetSession) → CaughtUp n s → CaughtUp n (after_send ck s)
  unfolding after_send
  CaughtUp-after_send ck n s (inl e) = inl e
  CaughtUp-after_send ck n s (inr (c, rk, received, v, e)) = inr (
    c,
    rk,
    received,
    record {
      key = v.key;
      named = v.named;
      their = v.their;
      at_chain = v.at_chain;
      saved = v.saved;
      below = v.below;
    },
    e,
  )

  pub hold-Paired :
      (i j : ℕ) (a b : RatchetSession) (p : Paired i j a b)
      → Paired i j (after_send p.chain_key a) (after_receive p.chain_key b)
  unfolding after_send after_receive first_params
  hold-Paired i j a b p = record {
    old_draw = p.old_draw;
    older = p.older;
    known = p.known;
    holder_public = p.holder_public;
    holder_private = p.holder_private;
    replier_public = p.replier_public;
    replier_private = p.replier_private;
    chain_key = p.chain_key;
    sends = after_send-Sends p.chain_key a p.sends;
    receives = after_receive-Receives laws p.chain_key (public_key i) b p.receives;
    all_received = ap suc p.all_received;
    bits = p.bits;
    reply_key = p.reply_key;
    shared = p.shared;
    root_step = p.root_step;
    replies = record {
      key = p.replies.key;
      at_chain = p.replies.at_chain;
      public_latin1 = p.replies.public_latin1;
      params_latin1 = p.replies.params_latin1;
    };
    unsent = p.unsent;
    caught_up = CaughtUp-after_send p.chain_key b.prev_send_count a p.caught_up;
    holder_skipped = p.holder_skipped;
    replier_skipped = p.replier_skipped;
    holder_pending =
        ap (λ o. pending_after o a.pending_pre_key_msg) (first_params-none a p.holder_pending)
        ∙ p.holder_pending;
    replier_pending = p.replier_pending;
  }

module _ {T : Type 0} ⦃web : WebCrypto⦄ ⦃json : WireJson⦄ ⦃ks : KeyStore T⦄
    (laws : IsWebCrypto web) where
  -- The next message of the chain that a session receives opens.
  pub decrypt_next :
      (peer plaintext : Str) (d : Device T) (ck : Bytes) (s : RatchetSession)
      (envelope : EncryptedEnvelope) (w : WireMessage)
      → ks.load_session peer d.store ≡ some s
      → Receives ck w.h.rk (before s.recv_count) s
      → envelope.type ≡ 2
      → Holds json envelope w
      → w.h.n ≡ s.recv_count
      → aes_gcm_decrypt (message_key ck w.h.n) w.ct w.iv ≡ ok (web.utf8_encode plaintext)
      → is_well_formed plaintext ≡ true
      → decrypt peer envelope d
        ≡ (ok plaintext, record d { store = ks.store_session peer (after_receive ck s) d.store })
  unfolding decrypt
  decrypt_next peer plaintext d ck s envelope w loaded v later (text, e1, e2) n opened fine =
      let got : retrieve_key s w.h.rk w.h.n ≡ ok (message_key ck w.h.n, after_receive ck s) =
        rw n (retrieve_key_next laws ck w.h.rk (before s.recv_count) s v) in
      let same_key : key_changed s.their_ratchet_public w.h.rk ≡ false =
        ap (λ o. key_changed o w.h.rk) v.their ∙ key_changed_same w.h.rk in
      let not_first : (envelope.type == 1) ≡ false = ground arith in
      rw (e1, e2, not_first, loaded, same_key, got, opened, laws.utf8_round_trip plaintext fine)
        refl

module _ {S T : Type 0} ⦃web : WebCrypto⦄ ⦃json : WireJson⦄ ⦃hold : KeyStore S⦄ ⦃reply : KeyStore T⦄
    (laws : IsWebCrypto web) (json_laws : IsWireJson json) (hold_laws : IsKeyStore hold)
    (reply_laws : IsKeyStore reply) where
  -- What the holder sends arrives, and the holder stays the holder.
  pub relay_holds :
      (to_replier to_holder plaintext : Str) (dh : Device S) (dr : Device T)
      → Talking hold reply to_replier to_holder dh dr
      → is_well_formed plaintext ≡ true
      → (sent : Device S) × (got : Device T) × (relay to_replier to_holder plaintext dh dr
          ≡ (ok plaintext, sent, got))
        × Talking hold reply to_replier to_holder sent got
        × (sent.draws ≡ suc dh.draws)
        × (got.draws ≡ dr.draws)
  unfolding relay
  relay_holds to_replier to_holder plaintext dh dr t fine =
      let p = t.paired in
      let (envelope, w, run, holds, head, _, type, opened) =
        encrypt-Sends laws json_laws to_replier plaintext dh p.chain_key t.holder t.held p.sends in
      let type2 : envelope.type ≡ 2 =
        type ∙ ap wire_type (first_params-none t.holder p.holder_pending) in
      let rk : w.h.rk ≡ public_key t.holder_draw = ap (λ h. h.rk) head ∙ p.holder_public in
      let n : w.h.n ≡ t.holder.send_count = ap (λ h. h.n) head in
      let got =
        decrypt_next laws to_holder plaintext dr p.chain_key t.replier envelope w t.replied
          (subst (λ r. Receives p.chain_key r (before t.replier.recv_count) t.replier) (sym rk)
            p.receives)
          type2 holds (n ∙ sym p.all_received)
          (ap (λ m. aes_gcm_decrypt (message_key p.chain_key m) w.ct w.iv) n ∙ opened) fine in
      (
        record {
          store = hold.store_session to_replier (after_send p.chain_key t.holder) dh.store;
          draws = suc dh.draws;
        },
        record dr {
          store = reply.store_session to_holder (after_receive p.chain_key t.replier) dr.store;
        },
        rw (run, got) refl,
        record {
          holder_draw = t.holder_draw;
          replier_draw = t.replier_draw;
          holder = after_send p.chain_key t.holder;
          replier = after_receive p.chain_key t.replier;
          held = load_session-store_session_self hold hold_laws to_replier _ _;
          replied = load_session-store_session_self reply reply_laws to_holder _ _;
          paired = hold-Paired laws t.holder_draw t.replier_draw t.holder t.replier p;
          holder_drawn = (let h = t.holder_drawn in omega arith);
          replier_drawn = t.replier_drawn;
        },
        refl,
        refl,
      )
