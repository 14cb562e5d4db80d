-- ===== src/Session/Forgeries.antt =====
-- `decrypt` of a message whose ciphertext does not open.
use winkd.Prelude.{ℕ, ◌+◌, ◌≤◌, ◌≡◌, ◌≢◌, refl, ap, ◌∙◌, Bool, false, some, Str, ◌==◌, arith}
use winkd.Codec.Hex.{Bytes}
use winkd.Result.{err, Error}
use winkd.KeyTypes.{RatchetSession, EncryptedEnvelope, WireMessage}
use winkd.KeyStore.{KeyStore, IsKeyStore}
use winkd.Crypto.WebCrypto.{WebCrypto}
use winkd.Crypto.Assumptions.{IsWebCrypto}
use winkd.Crypto.Kdf.{aes_gcm_decrypt}
use winkd.Crypto.Kdf.Chain.{message_key}
use winkd.Session.Device.{Device, WireJson}
use winkd.Session.Ratchet.{max_skip, key_changed}
use winkd.Session.Ratchet.Delivery.{Receives, mark, retrieve_key-Receives}
use winkd.Session.Receiving.{key_changed_same}
use winkd.Session.Manager.{decrypt}
use winkd.Session.Messages.{Holds, load_session-store_session_self}

module _ {S : Type 0} ⦃web : WebCrypto⦄ ⦃json : WireJson⦄ ⦃ks : KeyStore S⦄ (laws : IsWebCrypto web)
    (store_laws : IsKeyStore ks) where
  -- An envelope of another type than 1 whose message names the current ratchet key of the session
  -- and a number that was not received and is at most 500 past the count, but whose ciphertext
  -- does not open under the chain's key of that number: `decrypt` throws what AES-GCM threw, and
  -- leaves a stored session in which that number counts as received.
  -- Assumes `IsWebCrypto` and `IsKeyStore`.
  pub decrypt_forged :
      (peer : Str) (d : Device S) (ck : Bytes) (received : ℕ → Bool) (s : RatchetSession)
      (envelope : EncryptedEnvelope) (w : WireMessage) (e : Error)
      → ks.load_session peer d.store ≡ some s
      → Receives ck w.h.rk received s
      → envelope.type ≢ 1
      → Holds json envelope w
      → received w.h.n ≡ false
      → w.h.n ≤ s.recv_count + max_skip
      → aes_gcm_decrypt (message_key ck w.h.n) w.ct w.iv ≡ err e
      → (d' : Device S) × (s' : RatchetSession) × (decrypt peer envelope d ≡ (err e, d'))
        × (ks.load_session peer d'.store ≡ some s')
        × Receives ck w.h.rk (mark w.h.n received) s'
  unfolding decrypt
  decrypt_forged peer d ck received s envelope w e loaded v later (text, e1, e2) new near closed =
      let (s', got, v', _, _) = retrieve_key-Receives laws ck w.h.rk received s w.h.n v new near in
      let same_key : key_changed s.their_ratchet_public w.h.rk ≡ false =
        ap (λ o. key_changed o w.h.rk) v.their ∙ key_changed_same w.h.rk in
      let not_first : (envelope.type == 1) ≡ false = ground arith in
      (
        record d { store = ks.store_session peer s' d.store },
        s',
        rw (e1, e2, not_first, loaded, same_key, got, closed) refl,
        load_session-store_session_self ks store_laws peer s' _,
        v',
      )
