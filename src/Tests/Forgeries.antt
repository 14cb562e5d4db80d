-- ===== src/Tests/Forgeries.antt =====
-- A message without a ciphertext, sent to a session that waits for it.
use winkd.Prelude.{◌≡◌, refl, some, none, [], lit, arith, Str}
use winkd.Codec.Base64.{btoa, atob, base64_to_buf}
use winkd.Result.{err, dom_exception}
use winkd.KeyTypes.{RatchetSession, EncryptedEnvelope, WireMessage}
use winkd.KeyStore.InMemory.{InMemory, in_memory, InMemory-IsKeyStore}
use winkd.Crypto.Kdf.{aes_gcm_decrypt}
use winkd.Crypto.Kdf.Chain.{message_key}
use winkd.Session.Device.{Device}
use winkd.Session.Ratchet.Delivery.{Receives, mark}
use winkd.Session.Manager.{decrypt}
use winkd.Session.Messages.{btoa-stringify}
use winkd.Session.Forgeries.{decrypt_forged}
use winkd.Session.Handshake.Responder.{nothing_received}
use winkd.Tests.Codes.{unbits}
use winkd.Tests.Toy.{toy, toy_laws, toy_json, toy_json_laws}
use winkd.Tests.Session.{first_key, rk, fresh, fresh-Receives, device, device_loads}

abbrev forged : WireMessage
forged = record { h = record { rk = rk; n = 3; pn = 0 }; ct = []; iv = []; params = none }

payload :
    (text : Str) × (btoa (toy_json.stringify forged) ≡ some text)
    × (atob text ≡ some (toy_json.stringify forged))
payload = btoa-stringify toy_json toy_json_laws forged (omega arith, tt, tt, tt)

abbrev forged_envelope : EncryptedEnvelope
forged_envelope = record { type = 2; ciphertext = payload.0; registration_id = 1 }

forged_closed : aes_gcm_decrypt (message_key first_key 3) [] [] ≡ err dom_exception
unfolding aes_gcm_decrypt base64_to_buf unbits
forged_closed = refl

decrypt_forged_example :
    (d : Device InMemory) × (s : RatchetSession) × (decrypt (lit "bob#0001") forged_envelope device
      ≡ (err dom_exception, d))
    × (in_memory.load_session (lit "bob#0001") d.store ≡ some s)
    × Receives first_key rk (mark 3 nothing_received) s
decrypt_forged_example =
    decrypt_forged toy_laws InMemory-IsKeyStore (lit "bob#0001") device first_key nothing_received
      fresh forged_envelope forged dom_exception device_loads fresh-Receives (λ e. omega arith)
      (_, payload.2, toy_json_laws.parse_stringify forged) refl (omega arith) forged_closed
