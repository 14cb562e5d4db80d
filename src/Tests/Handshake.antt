-- ===== src/Tests/Handshake.antt =====
-- The first message between two concrete devices.
use winkd.Prelude.{◌≡◌, refl, some, lit, str_eq, nat_eq, str_eq_instance, [], ◌∷◌}
use winkd.Prelude.Dict.{get}
use winkd.Codec.Base64.{buf_to_base64, base64_to_buf}
use winkd.KeyTypes.{PreKeyBundle, RatchetSession, EncryptedEnvelope}
use winkd.KeyStore.InMemory.{InMemory, empty, in_memory, InMemory-IsKeyStore}
use winkd.Result.{ok}
use winkd.Crypto.Keys.{generate_dh_key_pair, import_public}
use winkd.Crypto.PreKeys.{verify_pre_key}
use winkd.Crypto.Assumptions.{is_well_formed}
use winkd.Crypto.X3dh.Agreement.{public_key, private_key}
use winkd.Session.Device.{Device}
use winkd.Session.Manager.{init_session_from_bundle, encrypt, decrypt, params_of}
use winkd.Session.Sending.{Sends}
use winkd.Session.Ratchet.Delivery.{Receives, mark}
use winkd.Session.Handshake.Agreed.{Draws}
use winkd.Session.Handshake.Initiator.{Shows, params_sent}
use winkd.Session.Handshake.Responder.{HoldsKeys, nothing_received}
use winkd.Session.Handshake.FirstMessage.{first_message}
use winkd.Tests.Toy.{toy, toy_laws, toy_json, toy_json_laws}

abbrev pub keys : Draws
keys = record {
  identity = 1;
  ephemeral = 10;
  ratchet = 11;
  their_identity = 2;
  signed_pre_key = 3;
  one_time = some 4;
}

abbrev pub bundle : PreKeyBundle
bundle = record {
  registration_id = 5;
  device_id = 1;
  identity_key = public_key 2;
  signed_pre_key = record {
    id = 30;
    public_key = public_key 3;
    signature = buf_to_base64 (5 ∷ []);
  };
  one_time_pre_key = some (record { id = 40; public_key = public_key 4 });
}

abbrev pub alice_device : Device InMemory
alice_device = record {
  store = record empty {
    identity = some (record { public_key = public_key 1; private_key = private_key 1 });
  };
  draws = 10;
}

abbrev pub bob_device : Device InMemory
bob_device = record {
  store = record empty {
    identity = some (record { public_key = public_key 2; private_key = private_key 2 });
    pre_keys =
        (40, record { id = 40; public_key = public_key 4; private_key = private_key 4 }) ∷ [];
    signed_pre_keys =
        (
          30,
          record {
            id = 30;
            public_key = public_key 3;
            private_key = private_key 3;
            signature = buf_to_base64 (5 ∷ []);
          },
        )
        ∷ [];
  };
  draws = 100;
}

pub bundle-Shows : Shows keys bundle
unfolding verify_pre_key import_public generate_dh_key_pair buf_to_base64 base64_to_buf str_eq
bundle-Shows = record { identity = refl; signed = refl; one_time = refl; verified = refl }

pub bob-HoldsKeys : HoldsKeys in_memory keys (params_of (params_sent keys bundle)) bob_device.store
unfolding get
bob-HoldsKeys = record {
  signature = buf_to_base64 (5 ∷ []);
  identity = refl;
  signed = refl;
  one_time = refl;
}

first_message_example :
    (ready : Device InMemory) × (envelope : EncryptedEnvelope) × (sent : Device InMemory)
    × (got : Device InMemory) × (sa : RatchetSession) × (sb : RatchetSession) × (ck : _)
    × (init_session_from_bundle (lit "bob#0002") bundle alice_device ≡ (ok tt, ready))
    × (encrypt (lit "bob#0002") (lit "hello") ready ≡ (ok envelope, sent))
    × (envelope.type ≡ 1)
    × (decrypt (lit "alice#0001") envelope bob_device ≡ (ok (lit "hello"), got))
    × (in_memory.load_session (lit "bob#0002") sent.store ≡ some sa)
    × (in_memory.load_session (lit "alice#0001") got.store ≡ some sb)
    × Sends ck sa
    × (sa.send_count ≡ 1)
    × (sa.our_ratchet_public ≡ public_key 11)
    × Receives ck (public_key 11) (mark 0 nothing_received) sb
unfolding is_well_formed
first_message_example =
    first_message toy_laws toy_json_laws InMemory-IsKeyStore InMemory-IsKeyStore (lit "bob#0002")
      (lit "alice#0001") (lit "hello") bundle keys alice_device bob_device refl refl refl
      bundle-Shows bob-HoldsKeys refl
