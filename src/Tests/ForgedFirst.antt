-- ===== src/Tests/ForgedFirst.antt =====
-- First messages that come to nothing.
use winkd.Prelude.{◌≡◌, refl, some, none, [], lit, arith, Str, str_eq, str_eq_instance}
use winkd.Prelude.Dict.{get, remove}
use winkd.Codec.Base64.{btoa, atob, base64_to_buf}
use winkd.Result.{err, dom_exception}
use winkd.KeyTypes.{RatchetSession, EncryptedEnvelope, WireMessage, X3dhParams}
use winkd.KeyStore.InMemory.{InMemory, in_memory, InMemory-IsKeyStore}
use winkd.Crypto.Keys.{generate_dh_key_pair, dh}
use winkd.Crypto.Kdf.{aes_gcm_decrypt}
use winkd.Crypto.Kdf.Chain.{message_key}
use winkd.Crypto.X3dh.{x3dh_respond}
use winkd.Crypto.X3dh.Agreement.{public_key, private_key, public_key-IsBytes}
use winkd.Session.Device.{Device}
use winkd.Session.Ratchet.InOrder.{after_receive}
use winkd.Session.Manager.{decrypt, params_of}
use winkd.Session.Messages.{btoa-stringify}
use winkd.Session.ForgedFirst.{decrypt_forged_first, decrypt_wastes_pre_key}
use winkd.Session.Handshake.Agreed.{agree}
use winkd.Session.Handshake.Initiator.{params_sent}
use winkd.Session.Handshake.Responder.{Responds}
use winkd.Tests.Codes.{unbits, join, unjoin}
use winkd.Tests.Toy.{toy, toy_laws, toy_json, toy_json_laws}
use winkd.Tests.Handshake.{keys, bundle, bob_device, bob-HoldsKeys}

-- A first message without a ciphertext.
abbrev forged_first : WireMessage
forged_first = record {
  h = record { rk = public_key 11; n = 0; pn = 0 };
  ct = [];
  iv = [];
  params = some (params_of (params_sent keys bundle));
}

first_payload :
    (text : Str) × (btoa (toy_json.stringify forged_first) ≡ some text)
    × (atob text ≡ some (toy_json.stringify forged_first))
first_payload = btoa-stringify toy_json toy_json_laws forged_first (
  public_key-IsBytes toy_laws 11,
  tt,
  tt,
  (public_key-IsBytes toy_laws 1, public_key-IsBytes toy_laws 10),
)

abbrev first_envelope : EncryptedEnvelope
first_envelope = record { type = 1; ciphertext = first_payload.0; registration_id = 1 }

first_closed :
    aes_gcm_decrypt (message_key (agree toy_laws keys).first_chain 0) [] [] ≡ err dom_exception
unfolding aes_gcm_decrypt base64_to_buf unbits
first_closed = refl

decrypt_forged_first_example :
    (s : RatchetSession) × (d' : Device InMemory) × Responds (agree toy_laws keys) 100 s
    × (decrypt (lit "alice#0001") first_envelope bob_device ≡ (err dom_exception, d'))
    × (in_memory.load_session (lit "alice#0001") d'.store
        ≡ some (after_receive (agree toy_laws keys).first_chain s))
decrypt_forged_first_example =
    decrypt_forged_first toy_laws InMemory-IsKeyStore (lit "alice#0001") bob_device keys
      (agree toy_laws keys) (params_of (params_sent keys bundle)) first_envelope forged_first
      dom_exception (_, first_payload.2, toy_json_laws.parse_stringify forged_first) refl refl refl
      refl refl refl bob-HoldsKeys first_closed

-- Parameters whose identity key is no base64 text.
abbrev bad_params : X3dhParams
bad_params = record { ik = lit "?"; ek = public_key 10; spk_id = 30; opk_id = some 40 }

abbrev bad_first : WireMessage
bad_first = record forged_first { params = some bad_params }

bad_payload :
    (text : Str) × (btoa (toy_json.stringify bad_first) ≡ some text)
    × (atob text ≡ some (toy_json.stringify bad_first))
bad_payload =
    btoa-stringify toy_json toy_json_laws bad_first
      (public_key-IsBytes toy_laws 11, tt, tt, ((omega arith, tt), public_key-IsBytes toy_laws 10))

abbrev bad_envelope : EncryptedEnvelope
bad_envelope = record { type = 1; ciphertext = bad_payload.0; registration_id = 1 }

x3dh_fails :
    x3dh_respond (private_key 2) (private_key 3) (some (private_key 4)) (lit "?") (public_key 10)
    ≡ err dom_exception
unfolding x3dh_respond dh base64_to_buf generate_dh_key_pair get unjoin join remove str_eq
x3dh_fails = refl

decrypt_wastes_pre_key_example :
    (decrypt (lit "alice#0001") bad_envelope bob_device ≡ (
      err dom_exception,
      record bob_device { store = in_memory.remove_pre_key 40 bob_device.store },
    ))
    × (in_memory.load_pre_key 40 (in_memory.remove_pre_key 40 bob_device.store) ≡ none)
unfolding get
decrypt_wastes_pre_key_example =
    decrypt_wastes_pre_key toy_laws InMemory-IsKeyStore (lit "alice#0001") bob_device bad_params 40
      _ _ _ bad_envelope bad_first dom_exception
      (_, bad_payload.2, toy_json_laws.parse_stringify bad_first) refl refl refl refl refl refl
      x3dh_fails
