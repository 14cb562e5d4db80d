-- ===== src/Session/LateMessages.antt =====
-- `decrypt` of a message of an earlier chain that arrives after the ratchet has moved on.
use winkd.Prelude.{
  ℕ, suc, ◌+◌, ◌-◌, ◌≤◌, ◌≡◌, ◌≢◌, refl, Bool, true, false, some, Str, ◌==◌, arith, ltb, str_eq,
  str_eq_instance,
}
use winkd.Prelude.Dict.{get, remove}
use winkd.Codec.Hex.{Bytes, buf_to_hex}
use winkd.Codec.Hex.Laws.{hex_to_buf-buf_to_hex}
use winkd.Result.{ok}
use winkd.KeyTypes.{RatchetSession, EncryptedEnvelope, WireMessage}
use winkd.KeyStore.{KeyStore, IsKeyStore}
use winkd.Crypto.WebCrypto.{WebCrypto}
use winkd.Crypto.Assumptions.{IsWebCrypto, is_well_formed}
use winkd.Crypto.Keys.{dh}
use winkd.Crypto.Kdf.{aes_gcm_decrypt, kdf_root_key}
use winkd.Crypto.Kdf.Chain.{IsKey, chain, chain-IsKey}
use winkd.Crypto.X3dh.Agreement.{public_key, private_key, dh_total}
use winkd.Session.Device.{Device, WireJson}
use winkd.Session.Ratchet.{
  skipped_name, key_changed, skip_message_keys, skip_from, skip_loop, ratchet_receive, ratchet_send,
  retrieve_key,
}
use winkd.Session.Ratchet.Delivery.{Receives, truthy-hex}
use winkd.Session.Manager.{decrypt, generate_key_pair}
use winkd.Session.Messages.{Holds, load_session-store_session_self}

module _ ⦃web : WebCrypto⦄ (laws : IsWebCrypto web) where
  -- Nothing is skipped up to a number that the chain has passed.
  skip_message_keys_past :
      (ck : Bytes) (rk : Str) (received : ℕ → Bool) (s : RatchetSession) (n : ℕ)
      → Receives ck rk received s
      → n ≤ s.recv_count
      → skip_message_keys s n ≡ ok s
  unfolding skip_message_keys skip_from skip_loop
  skip_message_keys_past ck rk received s n v past =
      let near : ltb (s.recv_count + 500) n ≡ false = ground arith in
      let none_left : n - s.recv_count ≡ 0 = omega arith in
      rw
        (
          v.at_chain,
          truthy-hex (chain ck s.recv_count) (chain-IsKey laws ck s.recv_count v.key),
          v.their,
          v.named,
          near,
          none_left,
        )
        refl

module _ {S : Type 0} ⦃web : WebCrypto⦄ ⦃json : WireJson⦄ ⦃ks : KeyStore S⦄ (laws : IsWebCrypto web)
    (store_laws : IsKeyStore ks) where
  -- A session receives on a chain under one ratchet key and has a saved key for a message under
  -- another, which like its own is of a generated pair. When that message arrives, in an envelope
  -- of another type than 1, opens with the saved key to a text without lone surrogates, and counts
  -- no more messages of its previous chain than were received on the present one, `decrypt` returns
  -- the text, but takes a step of the DH ratchet for the old ratchet key first: the stored session
  -- names the old key as the other side's, has a new key pair and sends from number 0, and its
  -- receiving chain starts at 0 from the old key.
  -- Assumes `IsWebCrypto` and `IsKeyStore`.
  pub decrypt_late :
      (peer plaintext : Str) (d : Device S) (ck key : Bytes) (current : Str) (i j : ℕ)
      (received : ℕ → Bool) (s : RatchetSession) (envelope : EncryptedEnvelope) (w : WireMessage)
      → ks.load_session peer d.store ≡ some s
      → Receives ck current received s
      → s.our_ratchet_private ≡ private_key i
      → w.h.rk ≡ public_key j
      → str_eq current w.h.rk ≡ false
      → get (skipped_name w.h.rk w.h.n) s.skipped ≡ some (buf_to_hex key)
      → IsKey key
      → w.h.pn ≤ s.recv_count
      → envelope.type ≢ 1
      → Holds json envelope w
      → aes_gcm_decrypt key w.ct w.iv ≡ ok (web.utf8_encode plaintext)
      → is_well_formed plaintext ≡ true
      → (d' : Device S) × (s' : RatchetSession) × (bits : Bytes) × (decrypt peer envelope d
          ≡ (ok plaintext, d'))
        × (ks.load_session peer d'.store ≡ some s')
        × (s'.their_ratchet_public ≡ some w.h.rk)
        × (s'.our_ratchet_public ≡ public_key d.draws)
        × (s'.send_count ≡ 0)
        × (s'.recv_count ≡ 0)
        × (dh s.our_ratchet_private w.h.rk ≡ ok bits)
        × (s'.recv_chain_key ≡ some (kdf_root_key s.root_key bits).chain_key)
  unfolding decrypt generate_key_pair ratchet_receive ratchet_send retrieve_key
  decrypt_late peer plaintext d ck key current i j received s envelope w loaded v ours theirs other
        saved key_ok past later (text, e1, e2) opened fine =
      let (bits, b1) = dh_total laws i j in
      let (bits2, b2) = dh_total laws d.draws j in
      let changed : key_changed s.their_ratchet_public w.h.rk ≡ true = rw (v.their, other) refl in
      let not_first : (envelope.type == 1) ≡ false = ground (arith, later) in
      let dh1 : dh s.our_ratchet_private w.h.rk ≡ ok bits = rw (ours, theirs) b1 in
      let dh2 : dh (private_key d.draws) w.h.rk ≡ ok bits2 = rw theirs b2 in
      let step1 = kdf_root_key s.root_key bits in
      let step2 = kdf_root_key step1.new_root_key bits2 in
      let s' : RatchetSession = record s {
        root_key = step2.new_root_key;
        send_chain_key = some step2.chain_key;
        recv_chain_key = some step1.chain_key;
        send_count = 0;
        recv_count = 0;
        prev_send_count = s.send_count;
        our_ratchet_public = public_key d.draws;
        our_ratchet_private = private_key d.draws;
        their_ratchet_public = some w.h.rk;
        skipped = remove (skipped_name w.h.rk w.h.n) s.skipped;
      } in
      (
        record { store = ks.store_session peer s' d.store; draws = suc d.draws },
        s',
        bits,
        rw
            (
              e1,
              e2,
              not_first,
              loaded,
              changed,
              skip_message_keys_past laws ck current received s w.h.pn v past,
            )
            (rw
              (
                dh1,
                dh2,
                saved,
                hex_to_buf-buf_to_hex key key_ok.0,
                opened,
                laws.utf8_round_trip plaintext fine,
              )
              refl),
        load_session-store_session_self ks store_laws peer s' _,
        refl,
        refl,
        refl,
        refl,
        dh1,
        refl,
      )
