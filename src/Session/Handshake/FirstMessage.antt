-- ===== src/Session/Handshake/FirstMessage.antt =====
-- From a pre-key bundle to the first plaintext.
use winkd.Prelude.{ℕ, subst, ◌+◌, suc, ◌≡◌, refl, ap, sym, ◌∙◌, true, some, Str, arith, ◌==◌}
use winkd.Codec.Hex.{Bytes}
use winkd.Result.{ok}
use winkd.KeyTypes.{PreKeyBundle, EncryptedEnvelope, WireMessage, RatchetSession, X3dhParams}
use winkd.KeyStore.{KeyStore, IsKeyStore}
use winkd.Crypto.WebCrypto.{WebCrypto}
use winkd.Crypto.Assumptions.{IsWebCrypto, is_well_formed}
use winkd.Crypto.Kdf.{aes_gcm_decrypt}
use winkd.Crypto.Kdf.Chain.{message_key}
use winkd.Crypto.X3dh.Agreement.{public_key, private_key}
use winkd.Session.Device.{Device, WireJson}
use winkd.Session.Ratchet.{first_params}
use winkd.Session.Ratchet.Delivery.{Receives, mark}
use winkd.Session.Ratchet.InOrder.{before, after_receive, after_receive-Receives}
use winkd.Session.Manager.{init_session_from_bundle, encrypt, decrypt, params_of}
use winkd.Session.Messages.{IsWireJson, Holds, load_session-store_session_self}
use winkd.Session.Sending.{Sends, after_send, after_send-Sends, encrypt-Sends}
use winkd.Session.Handshake.Agreed.{Draws, Agreed, agree}
use winkd.Session.Handshake.Initiator.{
  Shows, params_sent, initiator_session, init_session_from_bundle-eq, initiator_session-Sends,
}
use winkd.Session.Handshake.Responder.{
  HoldsKeys, Responds, nothing_received, consumed, init_session_from_pre_key-Responds,
  key_changed-Responds, retrieve_key-Responds,
}

nothing_before : (j : ℕ) → nothing_received j ≡ before 0 j
nothing_before j = ground arith

only_first : (j : ℕ) → before 1 j ≡ mark 0 nothing_received j
only_first j = ground arith

module _ ⦃web : WebCrypto⦄ (laws : IsWebCrypto web) where
  -- Once the first message is received, all before number 1 is.
  pub Responds-after_receive :
      {k : Draws} (a : Agreed k) (n : ℕ) (s : RatchetSession)
      → Responds a n s
      → Receives a.first_chain (public_key k.ratchet) (before 1) (after_receive a.first_chain s)
  Responds-after_receive {k} a n s r =
      let v =
        subst (λ f. Receives a.first_chain (public_key k.ratchet) f s)
          (λ i j. (nothing_before j ∙ ap (λ m. before m j) (sym r.fresh)) i) r.receives in
      subst
        (λ m.
          Receives a.first_chain (public_key k.ratchet) (before (suc m))
            (after_receive a.first_chain s))
        r.fresh (after_receive-Receives laws a.first_chain (public_key k.ratchet) s v)

module _ {T : Type 0} ⦃web : WebCrypto⦄ ⦃json : WireJson⦄ ⦃ks : KeyStore T⦄ (laws : IsWebCrypto web)
    (store_laws : IsKeyStore ks) where
  -- A type-1 envelope from that initiator opens, and leaves a session that has received it.
  decrypt_first :
      (peer plaintext : Str) (d : Device T) (k : Draws) (a : Agreed k) (p : X3dhParams)
      (envelope : EncryptedEnvelope) (w : WireMessage)
      → Holds json envelope w
      → envelope.type ≡ 1
      → w.params ≡ some p
      → w.h.rk ≡ public_key k.ratchet
      → w.h.n ≡ 0
      → p.ik ≡ public_key k.identity
      → p.ek ≡ public_key k.ephemeral
      → HoldsKeys ks k p d.store
      → aes_gcm_decrypt (message_key a.first_chain 0) w.ct w.iv ≡ ok (web.utf8_encode plaintext)
      → is_well_formed plaintext ≡ true
      → (s : RatchetSession) × (d' : Device T) × Responds a d.draws s
        × (decrypt peer envelope d ≡ (ok plaintext, d'))
        × (ks.load_session peer d'.store ≡ some (after_receive a.first_chain s))
        × (d'.draws ≡ suc d.draws)
  unfolding decrypt
  decrypt_first peer plaintext d k a p envelope w (text, e1, e2) first ps rk n ik ek keys opened
        fine =
      let (s, e, r) = init_session_from_pre_key-Responds laws peer w p d k a ps rk ik ek keys in
      let same_key = key_changed-Responds laws a d.draws s w.h.rk r rk in
      let got = retrieve_key-Responds laws a d.draws s w.h.rk w.h.n r rk n in
      let is_first : (envelope.type == 1) ≡ true = ground (arith, first) in
      (
        s,
        record {
          store =
              ks.store_session peer (after_receive a.first_chain s)
                (ks.store_session peer s (consumed ks p.opk_id d.store));
          draws = suc d.draws;
        },
        r,
        rw (e1, e2, is_first, e, same_key, got, opened, laws.utf8_round_trip plaintext fine) refl,
        load_session-store_session_self ks store_laws peer _ _,
        refl,
      )

module _ {S T : Type 0} ⦃web : WebCrypto⦄ ⦃json : WireJson⦄ ⦃alice : KeyStore S⦄ ⦃bob : KeyStore T⦄
    (laws : IsWebCrypto web) (json_laws : IsWireJson json) (alice_laws : IsKeyStore alice)
    (bob_laws : IsKeyStore bob) where
  -- What the handshake and the first message do, with the sessions that they leave.
  pub first_exchange :
      (to_bob to_alice plaintext : Str) (bundle : PreKeyBundle) (k : Draws) (da : Device S)
      (db : Device T)
      → k.ephemeral ≡ da.draws
      → k.ratchet ≡ suc k.ephemeral
      → alice.get_identity_key_pair da.store
        ≡ some (record { public_key = public_key k.identity; private_key = private_key k.identity })
      → Shows k bundle
      → HoldsKeys bob k (params_of (params_sent k bundle)) db.store
      → is_well_formed plaintext ≡ true
      → (ready : Device S) × (envelope : EncryptedEnvelope) × (sent : Device S) × (got : Device T)
        × (s : RatchetSession) × (init_session_from_bundle to_bob bundle da ≡ (ok tt, ready))
        × (encrypt to_bob plaintext ready ≡ (ok envelope, sent))
        × (envelope.type ≡ 1)
        × (decrypt to_alice envelope db ≡ (ok plaintext, got))
        × (alice.load_session to_bob sent.store
            ≡ some
                (after_send (agree laws k).first_chain (initiator_session (agree laws k) bundle)))
        × (bob.load_session to_alice got.store ≡ some (after_receive (agree laws k).first_chain s))
        × Responds (agree laws k) db.draws s
        × (sent.draws ≡ da.draws + 3)
        × (got.draws ≡ suc db.draws)
  unfolding initiator_session first_params
  first_exchange to_bob to_alice plaintext bundle k da db e1 e2 ours shows keys fine =
      let a = agree laws k in
      let s0 = initiator_session a bundle in
      let ready : Device S = record {
        store = alice.store_session to_bob s0 da.store;
        draws = suc (suc da.draws);
      } in
      let loaded = load_session-store_session_self alice alice_laws to_bob s0 da.store in
      let (envelope, w, sent, holds, head, params, type, opened) =
        encrypt-Sends laws json_laws to_bob plaintext ready a.first_chain s0 loaded
          (initiator_session-Sends laws a bundle) in
      let (s, got, r, opens, stored, drawn) =
        decrypt_first laws bob_laws to_alice plaintext db k a (params_of (params_sent k bundle))
          envelope w holds type params (ap (λ h. h.rk) head) (ap (λ h. h.n) head) refl refl keys
          opened fine in
      (
        ready,
        envelope,
        record ready {
          store = alice.store_session to_bob (after_send a.first_chain s0) ready.store;
          draws = suc ready.draws;
        },
        got,
        s,
        init_session_from_bundle-eq to_bob bundle da k a e1 e2 shows ours,
        sent,
        type,
        opens,
        load_session-store_session_self alice alice_laws to_bob _ _,
        stored,
        r,
        omega arith,
        drawn,
      )

  -- Alice has an identity key, Bob holds the private keys of a bundle whose signature verifies, and
  -- the text has no lone surrogate. Then `initSessionFromBundle` on Alice's device succeeds, her
  -- first `encrypt` returns an envelope, Bob's `decrypt` of it returns the text, and the two
  -- devices end with stored sessions of which Alice's sends on the chain on which Bob's receives:
  -- hers at message 1, his with message 0 received.
  -- Assumes `IsWebCrypto`, `IsWireJson`, and `IsKeyStore` of both stores.
  pub first_message :
      (to_bob to_alice plaintext : Str) (bundle : PreKeyBundle) (k : Draws) (da : Device S)
      (db : Device T)
      → k.ephemeral ≡ da.draws
      → k.ratchet ≡ suc k.ephemeral
      → alice.get_identity_key_pair da.store
        ≡ some (record { public_key = public_key k.identity; private_key = private_key k.identity })
      → Shows k bundle
      → HoldsKeys bob k (params_of (params_sent k bundle)) db.store
      → is_well_formed plaintext ≡ true
      → (ready : Device S) × (envelope : EncryptedEnvelope) × (sent : Device S) × (got : Device T)
        × (sa : RatchetSession) × (sb : RatchetSession) × (ck : Bytes) × (init_session_from_bundle
              to_bob bundle da
            ≡ (ok tt, ready))
        × (encrypt to_bob plaintext ready ≡ (ok envelope, sent))
        × (envelope.type ≡ 1)
        × (decrypt to_alice envelope db ≡ (ok plaintext, got))
        × (alice.load_session to_bob sent.store ≡ some sa)
        × (bob.load_session to_alice got.store ≡ some sb)
        × Sends ck sa
        × (sa.send_count ≡ 1)
        × (sa.our_ratchet_public ≡ public_key k.ratchet)
        × Receives ck (public_key k.ratchet) (mark 0 nothing_received) sb
  unfolding initiator_session after_send
  first_message to_bob to_alice plaintext bundle k da db e1 e2 ours shows keys fine =
      let a = agree laws k in
      let (ready, envelope, sent, got, s, made, run, type, opens, la, lb, r, _, _) =
        first_exchange to_bob to_alice plaintext bundle k da db e1 e2 ours shows keys fine in
      (
        ready,
        envelope,
        sent,
        got,
        after_send a.first_chain (initiator_session a bundle),
        after_receive a.first_chain s,
        a.first_chain,
        made,
        run,
        type,
        opens,
        la,
        lb,
        after_send-Sends a.first_chain _ (initiator_session-Sends laws a bundle),
        refl,
        refl,
        subst (λ f. Receives a.first_chain (public_key k.ratchet) f (after_receive a.first_chain s))
            (λ i j. only_first j i) (Responds-after_receive laws a db.draws s r),
      )
