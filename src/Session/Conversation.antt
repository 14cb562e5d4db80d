-- ===== src/Session/Conversation.antt =====
-- One side encrypts, the other decrypts: later messages of a chain.
use winkd.Prelude.{
  ℕ, ◌+◌, ◌≤◌, ◌≡◌, sym, subst, subst₂, ap, ◌∙◌, Bool, true, false, some, none, Str, arith,
}
use winkd.Codec.Hex.{Bytes}
use winkd.Result.{ok}
use winkd.KeyTypes.{EncryptedEnvelope, RatchetSession}
use winkd.KeyStore.{KeyStore, IsKeyStore}
use winkd.Crypto.WebCrypto.{WebCrypto}
use winkd.Crypto.Assumptions.{IsWebCrypto, is_well_formed}
use winkd.Crypto.Kdf.{aes_gcm_decrypt}
use winkd.Crypto.Kdf.Chain.{message_key}
use winkd.Session.Device.{Device, WireJson}
use winkd.Session.Ratchet.{first_params, max_skip}
use winkd.Session.Ratchet.Delivery.{Receives, mark}
use winkd.Session.Manager.{encrypt, decrypt, wire_type}
use winkd.Session.Messages.{IsWireJson, load_session-store_session_self}
use winkd.Session.Sending.{Sends, after_send, after_send-Sends, encrypt-Sends}
use winkd.Session.Receiving.{decrypt-Receives}

module _ {S T : Type 0} ⦃web : WebCrypto⦄ ⦃json : WireJson⦄ ⦃alice : KeyStore S⦄ ⦃bob : KeyStore T⦄
    (laws : IsWebCrypto web) (json_laws : IsWireJson json) (alice_laws : IsKeyStore alice)
    (bob_laws : IsKeyStore bob) where
  -- Alice's stored session sends on the chain on which Bob's receives, under her ratchet key, and
  -- has no X3DH parameters left to send. If Bob has not received the message of her counter, that
  -- counter is at most 500 past his, and the text has no lone surrogate, then `encrypt` returns an
  -- envelope of type 2, `decrypt` of it returns the text, and the stored sessions again send and
  -- receive on that chain: hers one message further on, his with this message received.
  -- Assumes `IsWebCrypto`, `IsWireJson`, and `IsKeyStore` of both stores.
  pub message_arrives :
      (to_bob to_alice plaintext : Str) (da : Device S) (db : Device T) (sa sb : RatchetSession)
      (ck : Bytes) (received : ℕ → Bool)
      → alice.load_session to_bob da.store ≡ some sa
      → bob.load_session to_alice db.store ≡ some sb
      → Sends ck sa
      → Receives ck sa.our_ratchet_public received sb
      → first_params sa ≡ none
      → received sa.send_count ≡ false
      → sa.send_count ≤ sb.recv_count + max_skip
      → is_well_formed plaintext ≡ true
      → (envelope : EncryptedEnvelope) × (sent : Device S) × (got : Device T)
        × (sb' : RatchetSession) × (encrypt to_bob plaintext da ≡ (ok envelope, sent))
        × (envelope.type ≡ 2)
        × (decrypt to_alice envelope db ≡ (ok plaintext, got))
        × (alice.load_session to_bob sent.store ≡ some (after_send ck sa))
        × (bob.load_session to_alice got.store ≡ some sb')
        × Sends ck (after_send ck sa)
        × Receives ck sa.our_ratchet_public (mark sa.send_count received) sb'
  message_arrives to_bob to_alice plaintext da db sa sb ck received la lb va vb later new near
        fine =
      let (envelope, w, run, holds, head, _, type, opened) =
        encrypt-Sends laws json_laws to_bob plaintext da ck sa la va in
      let type2 : envelope.type ≡ 2 = type ∙ ap wire_type later in
      let rk : w.h.rk ≡ sa.our_ratchet_public = ap (λ h. h.rk) head in
      let n : w.h.n ≡ sa.send_count = ap (λ h. h.n) head in
      let close : w.h.n ≤ sb.recv_count + 500 = omega arith in
      let (sb', got, vb', _) =
        decrypt-Receives laws to_alice plaintext db ck received sb envelope w lb
          (subst (λ r. Receives ck r received sb) (sym rk) vb) (omega arith) holds
          (ap received n ∙ new) close
          (ap (λ m. aes_gcm_decrypt (message_key ck m) w.ct w.iv) n ∙ opened) fine in
      (
        envelope,
        _,
        _,
        sb',
        run,
        type2,
        got,
        load_session-store_session_self alice alice_laws to_bob _ _,
        load_session-store_session_self bob bob_laws to_alice _ _,
        after_send-Sends ck sa va,
        subst₂ (λ r m. Receives ck r (mark m received) sb') rk n vb',
      )
