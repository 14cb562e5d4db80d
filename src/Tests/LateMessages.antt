-- ===== src/Tests/LateMessages.antt =====
-- A message of an earlier chain that arrives late.
use winkd.Prelude.{◌≡◌, refl, some, none, [], ◌∷◌, lit, arith, Str, str_eq, str_eq_instance}
use winkd.Prelude.Dict.{get}
use winkd.Codec.Hex.{Bytes, buf_to_hex}
use winkd.Codec.Decimal.{decimal}
use winkd.Codec.Base64.{btoa, atob, buf_to_base64}
use winkd.Result.{ok}
use winkd.KeyTypes.{RatchetSession, EncryptedEnvelope, WireMessage}
use winkd.KeyStore.InMemory.{InMemory, empty, in_memory, InMemory-IsKeyStore}
use winkd.Crypto.Assumptions.{is_well_formed}
use winkd.Crypto.Keys.{generate_dh_key_pair, dh}
use winkd.Crypto.Kdf.{kdf_root_key, AesGcmResult}
use winkd.Crypto.Kdf.Cipher.{aes_gcm_round_trip}
use winkd.Crypto.X3dh.Agreement.{public_key, private_key, public_key-IsBytes}
use winkd.Session.Device.{Device}
use winkd.Session.Ratchet.{skipped_name}
use winkd.Session.Ratchet.Delivery.{Receives}
use winkd.Session.Manager.{decrypt}
use winkd.Session.Messages.{btoa-stringify, load_session-store_session_self}
use winkd.Session.LateMessages.{decrypt_late}
use winkd.Session.Handshake.Responder.{nothing_received}
use winkd.Tests.Toy.{toy, toy_laws, toy_json, toy_json_laws}
use winkd.Tests.Session.{first_key, first_key-IsKey, rk, fresh}

-- Message 1 under the ratchet key of draw 3, sealed with a key that was saved.
abbrev sealed : AesGcmResult
sealed = (aes_gcm_round_trip toy_laws 7 first_key (lit "late") first_key-IsKey).0

abbrev late : WireMessage
late = record {
  h = record { rk = public_key 3; n = 1; pn = 0 };
  ct = sealed.ciphertext;
  iv = sealed.iv;
  params = none;
}

late_payload :
    (text : Str) × (btoa (toy_json.stringify late) ≡ some text)
    × (atob text ≡ some (toy_json.stringify late))
late_payload =
    let (_, _, _, ct_ok, iv_ok) =
      aes_gcm_round_trip toy_laws 7 first_key (lit "late") first_key-IsKey in
    btoa-stringify toy_json toy_json_laws late (public_key-IsBytes toy_laws 3, ct_ok, iv_ok, tt)

abbrev late_envelope : EncryptedEnvelope
late_envelope = record { type = 2; ciphertext = late_payload.0; registration_id = 1 }

-- The session receives under another ratchet key.
abbrev moved_on : RatchetSession
moved_on = record fresh {
  our_ratchet_private = private_key 5;
  skipped = (skipped_name (public_key 3) 1, buf_to_hex first_key) ∷ [];
}

moved_on-Receives : Receives first_key rk nothing_received moved_on
unfolding get skipped_name str_eq generate_dh_key_pair buf_to_base64
moved_on-Receives = record {
  key = first_key-IsKey;
  named = refl;
  their = refl;
  at_chain = refl;
  saved = λ n. ground arith;
  below = λ n h. cc;
}

abbrev late_device : Device InMemory
late_device = record { store = in_memory.store_session (lit "bob#0001") moved_on empty; draws = 20 }

decrypt_late_example :
    (d' : Device InMemory) × (s' : RatchetSession) × (bits : Bytes) × (decrypt
        (lit "bob#0001")
        late_envelope
        late_device
      ≡ (ok (lit "late"), d'))
    × (in_memory.load_session (lit "bob#0001") d'.store ≡ some s')
    × (s'.their_ratchet_public ≡ some (public_key 3))
    × (s'.our_ratchet_public ≡ public_key 20)
    × (s'.send_count ≡ 0)
    × (s'.recv_count ≡ 0)
    × (dh (private_key 5) (public_key 3) ≡ ok bits)
    × (s'.recv_chain_key ≡ some (kdf_root_key (lit "00") bits).chain_key)
unfolding is_well_formed get skipped_name str_eq generate_dh_key_pair buf_to_base64 decimal
decrypt_late_example =
    decrypt_late toy_laws InMemory-IsKeyStore (lit "bob#0001") (lit "late") late_device first_key
      first_key rk 5 3 nothing_received moved_on late_envelope late
      (load_session-store_session_self in_memory InMemory-IsKeyStore (lit "bob#0001") moved_on
        empty)
      moved_on-Receives refl refl refl refl first_key-IsKey (omega arith) (λ e. omega arith)
      (_, late_payload.2, toy_json_laws.parse_stringify late)
      (aes_gcm_round_trip toy_laws 7 first_key (lit "late") first_key-IsKey).2 refl
