-- ===== src/Session/Manager.antt =====
-- `SignalSessionManager` of packages/core/src/encryption/session.ts. A call is one step: two
-- calls for one peer that run at once are not modelled.
use winkd.Prelude.{ℕ, suc, Bool, true, false, Option, none, some, [], Str, ◌==◌, if◌then◌else◌}
use winkd.Codec.Hex.{buf_to_hex}
use winkd.Codec.Base64.{btoa, atob}
use winkd.Result.{
  ok, dom_exception, syntax_error, invalid_signature, no_identity_key, no_session, no_sending_chain,
  signed_pre_key_not_found, malformed_message, or_throw, throw_if,
}
use winkd.KeyTypes.{
  PreKeyBundle, EncryptedEnvelope, PendingPreKey, RatchetSession, X3dhParams, WireMessage,
}
use winkd.KeyStore.{KeyStore}
use winkd.Crypto.WebCrypto.{WebCrypto}
use winkd.Crypto.Keys.{DhKeyPair, generate_dh_key_pair, dh}
use winkd.Crypto.PreKeys.{verify_pre_key}
use winkd.Crypto.Kdf.{kdf_root_key, kdf_chain_key, aes_gcm_encrypt, aes_gcm_decrypt}
use winkd.Crypto.X3dh.{x3dh, x3dh_respond}
use winkd.Session.Device.{Action, WireJson, lift, pure, reads, reads_or, writes, draw, ◌>>=◌, ◌>>◌}
use winkd.Session.Ratchet.{
  truthy, key_changed, ratchet_receive, ratchet_send, retrieve_key, first_params,
}

abbrev pub or_zero : Option ℕ → ℕ
or_zero none = 0
or_zero (some n) = n

abbrev pub params_of : PendingPreKey → X3dhParams
params_of p = record {
  ik = p.identity_key;
  ek = p.ephemeral_key;
  spk_id = p.spk_id;
  opk_id = p.opk_id;
}

abbrev pub wire_params : Option PendingPreKey → Option X3dhParams
wire_params none = none
wire_params (some p) = some (params_of p)

-- Type 1 carries the parameters, and they are then forgotten.
abbrev pub wire_type : Option PendingPreKey → ℕ
wire_type none = 2
wire_type (some p) = 1

abbrev pub pending_after : Option PendingPreKey → Option PendingPreKey → Option PendingPreKey
pending_after none pending = pending
pending_after (some p) pending = none

module _ {S : Type 0} ⦃web : WebCrypto⦄ ⦃json : WireJson⦄ ⦃ks : KeyStore S⦄ where
  unfoldable pub generate_key_pair : Action S DhKeyPair
  generate_key_pair = do i ← draw; pure (generate_dh_key_pair i)

  unfoldable pub init_session_from_bundle : Str → PreKeyBundle → Action S (Unit {0})
  unfolding generate_key_pair
  init_session_from_bundle peer bundle = do
    let spk = bundle.signed_pre_key
    lift (
        throw_if
          (if verify_pre_key bundle.identity_key spk.public_key spk.signature then false else true)
          (invalid_signature peer))
    id_kp ← reads_or ks.get_identity_key_pair no_identity_key
    ek ← generate_key_pair
    secret ← lift (
        x3dh id_kp.private_key ek.private_key_jwk bundle.identity_key spk.public_key
          (elim bundle.one_time_pre_key [ none ↦ none | some k ↦ some k.public_key ]))
    ratchet_kp ← generate_key_pair
    dh_out ← lift (dh ratchet_kp.private_key_jwk spk.public_key)
    let step = kdf_root_key (buf_to_hex secret) dh_out
    writes (
        ks.store_session peer (record {
          root_key = step.new_root_key;
          send_chain_key = some step.chain_key;
          recv_chain_key = none;
          send_count = 0;
          recv_count = 0;
          prev_send_count = 0;
          our_ratchet_public = ratchet_kp.public_key_raw;
          our_ratchet_private = ratchet_kp.private_key_jwk;
          their_ratchet_public = some spk.public_key;
          skipped = [];
          is_initiator = true;
          pending_pre_key_msg = some (record {
            identity_key = id_kp.public_key;
            ephemeral_key = ek.public_key_raw;
            spk_id = spk.id;
            opk_id = elim bundle.one_time_pre_key [ none ↦ none | some k ↦ some k.id ];
          });
        }))

  unfoldable pub encrypt : Str → Str → Action S EncryptedEnvelope
  encrypt peer plaintext = do
    session ← reads_or (ks.load_session peer) (no_session peer)
    registration ← reads ks.get_local_registration_id
    chain_key ← lift (or_throw (truthy session.send_chain_key) no_sending_chain)
    step ← lift (kdf_chain_key chain_key)
    i ← draw
    sealed ← lift (aes_gcm_encrypt i step.message_key (web.utf8_encode plaintext))
    let first = first_params session
    let wire : WireMessage = record {
      h = record {
        rk = session.our_ratchet_public;
        n = session.send_count;
        pn = session.prev_send_count;
      };
      ct = sealed.ciphertext;
      iv = sealed.iv;
      params = wire_params first;
    }
    writes (
        ks.store_session peer (record session {
          send_chain_key = some step.next_chain_key;
          send_count = suc session.send_count;
          pending_pre_key_msg = pending_after first session.pending_pre_key_msg;
        }))
    payload ← lift (or_throw (btoa (json.stringify wire)) dom_exception)
    pure (record {
      type = wire_type first;
      ciphertext = payload;
      registration_id = or_zero registration;
    })

  -- The one-time pre-key that the message names: it is removed as soon as it is read.
  abbrev pub consume_pre_key : Option ℕ → Action S (Option Str)
  consume_pre_key none d = (ok none, d)
  consume_pre_key (some id) d = elim (ks.load_pre_key id d.store) [
    | none ↦ (ok none, d)
    | some opk ↦ (ok (some opk.private_key), record d { store = ks.remove_pre_key id d.store })
  ]

  unfoldable pub init_session_from_pre_key : Str → WireMessage → Action S RatchetSession
  unfolding generate_key_pair
  init_session_from_pre_key peer msg = do
    id_kp ← reads_or ks.get_identity_key_pair no_identity_key
    p ← lift (or_throw msg.params malformed_message)
    spk ← reads_or (ks.load_signed_pre_key p.spk_id) (signed_pre_key_not_found p.spk_id)
    opk_private ← consume_pre_key p.opk_id
    secret ← lift (x3dh_respond id_kp.private_key spk.private_key opk_private p.ik p.ek)
    dh_out1 ← lift (dh spk.private_key msg.h.rk)
    let step1 = kdf_root_key (buf_to_hex secret) dh_out1
    kp ← generate_key_pair
    dh_out2 ← lift (dh kp.private_key_jwk msg.h.rk)
    let step2 = kdf_root_key step1.new_root_key dh_out2
    let session : RatchetSession = record {
      root_key = step2.new_root_key;
      send_chain_key = some step2.chain_key;
      recv_chain_key = some step1.chain_key;
      send_count = 0;
      recv_count = 0;
      prev_send_count = 0;
      our_ratchet_public = kp.public_key_raw;
      our_ratchet_private = kp.private_key_jwk;
      their_ratchet_public = some msg.h.rk;
      skipped = [];
      is_initiator = false;
      pending_pre_key_msg = none;
    }
    writes (ks.store_session peer session)
    pure session

  -- The session that a message belongs to.
  abbrev session_for : Str → ℕ → WireMessage → Action S RatchetSession
  session_for peer type msg =
      if type == 1
      then init_session_from_pre_key peer msg
      else reads_or (ks.load_session peer) (no_session peer)

  abbrev ratchet_if : Bool → RatchetSession → WireMessage → Action S RatchetSession
  ratchet_if false session msg = pure session
  ratchet_if true session msg = do
    received ← lift (ratchet_receive session msg.h.rk msg.h.pn)
    kp ← generate_key_pair
    lift (ratchet_send received msg.h.rk kp)

  -- The session is stored before the ciphertext is opened.
  unfoldable pub decrypt : Str → EncryptedEnvelope → Action S Str
  decrypt peer envelope = do
    text ← lift (or_throw (atob envelope.ciphertext) dom_exception)
    msg ← lift (or_throw (json.parse text) syntax_error)
    session ← session_for peer envelope.type msg
    ratcheted ← ratchet_if (key_changed session.their_ratchet_public msg.h.rk) session msg
    (message_key, next) ← lift (retrieve_key ratcheted msg.h.rk msg.h.n)
    writes (ks.store_session peer next)
    pt ← lift (aes_gcm_decrypt message_key msg.ct msg.iv)
    pure (web.utf8_decode pt)
