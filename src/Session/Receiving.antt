-- ===== src/Session/Receiving.antt =====
-- `decrypt` on a session that holds the receiving chain of the message.
use winkd.Prelude.{
  ℕ, ◌+◌, ◌≤◌, ◌≡◌, ◌≢◌, refl, ap, ◌∙◌, Bool, true, false, some, Str, str_eq_iff, ◌==◌, arith,
}
use winkd.Codec.Hex.{Bytes}
use winkd.Result.{ok}
use winkd.KeyTypes.{RatchetSession, EncryptedEnvelope, WireMessage}
use winkd.KeyStore.{KeyStore}
use winkd.Crypto.WebCrypto.{WebCrypto}
use winkd.Crypto.Assumptions.{IsWebCrypto, is_well_formed}
use winkd.Crypto.Kdf.{aes_gcm_decrypt}
use winkd.Crypto.Kdf.Chain.{message_key}
use winkd.Session.Device.{Device, WireJson}
use winkd.Session.Ratchet.{max_skip, key_changed}
use winkd.Session.Ratchet.Delivery.{Receives, mark, retrieve_key-Receives}
use winkd.Session.Manager.{decrypt}
use winkd.Session.Messages.{Holds}

pub key_changed_same : (rk : Str) → key_changed (some rk) rk ≡ false
key_changed_same rk = rw ((str_eq_iff rk rk).1 refl)

module _ {S : Type 0} ⦃web : WebCrypto⦄ ⦃json : WireJson⦄ ⦃ks : KeyStore S⦄
    (laws : IsWebCrypto web) where
  -- An envelope of type 2 whose message is on the chain that the session holds, was not received
  -- before, lies at most 500 past the count and opens under the chain's key of its number to a
  -- text with no lone surrogate: `decrypt` returns that text, and all that changes on the device
  -- is that the session is stored with the message received.
  pub decrypt-Receives :
      (peer plaintext : Str) (d : Device S) (ck : Bytes) (received : ℕ → Bool) (s : RatchetSession)
      (envelope : EncryptedEnvelope) (w : WireMessage)
      → ks.load_session peer d.store ≡ some s
      → Receives ck w.h.rk received s
      → envelope.type ≢ 1
      → Holds json envelope w
      → received w.h.n ≡ false
      → w.h.n ≤ s.recv_count + max_skip
      → aes_gcm_decrypt (message_key ck w.h.n) w.ct w.iv ≡ ok (web.utf8_encode plaintext)
      → is_well_formed plaintext ≡ true
      → (s' : RatchetSession) × (decrypt peer envelope d
          ≡ (ok plaintext, record d { store = ks.store_session peer s' d.store }))
        × Receives ck w.h.rk (mark w.h.n received) s'
        × (s' ≡ record s {
          recv_chain_key = s'.recv_chain_key;
          recv_count = s'.recv_count;
          skipped = s'.skipped;
        })
  unfolding decrypt
  decrypt-Receives peer plaintext d ck received s envelope w loaded v later (text, e1, e2) new near
        opened fine =
      let (s', e, v', frame, _) =
        retrieve_key-Receives laws ck w.h.rk received s w.h.n v new near in
      let same_key : key_changed s.their_ratchet_public w.h.rk ≡ false =
        ap (λ o. key_changed o w.h.rk) v.their ∙ key_changed_same w.h.rk in
      let not_first : (envelope.type == 1) ≡ false = ground arith in
      (
        s',
        rw (e1, e2, not_first, loaded, same_key, e, opened, laws.utf8_round_trip plaintext fine),
        v',
        frame,
      )
