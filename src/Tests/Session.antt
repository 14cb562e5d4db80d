-- ===== src/Tests/Session.antt =====
-- Sessions at concrete inputs.
use winkd.Prelude.{
  ◌≤◌, ◌<◌, str_eq, ◌≡◌, refl, false, some, none, [], ◌∷◌, Str, lit, arith, replicate,
  str_eq_instance, nat_eq, map,
}
use winkd.Prelude.Dict.{get, put}
use winkd.Codec.Hex.{Bytes, buf_to_hex}
use winkd.Result.{ok, err, too_many_skipped}
use winkd.KeyTypes.{RatchetSession, EncryptedEnvelope}
use winkd.KeyStore.InMemory.{InMemory, empty, in_memory, InMemory-IsKeyStore}
use winkd.Crypto.Kdf.Chain.{IsKey, chain, message_key}
use winkd.Session.Device.{Device}
use winkd.Session.Ratchet.{retrieve_key, first_params, skip_loop}
use winkd.Session.Ratchet.Rounds.{while_below, while_below-skip_loop}
use winkd.Session.Ratchet.Delivery.{Receives, mark, retrieve_key-Receives, retrieve_key-far}
use winkd.Session.Ratchet.Arrivals.{retrieve_all, retrieve_all-message_keys}
use winkd.Session.Ratchet.Replays.{retrieve_key_replay}
use winkd.Session.Sending.{Sends, after_send}
use winkd.Session.Manager.{encrypt, decrypt}
use winkd.Session.Conversation.{message_arrives}
use winkd.Crypto.Assumptions.{is_well_formed}
use winkd.Session.Handshake.Responder.{nothing_received}
use winkd.Tests.Toy.{toy, toy_laws, toy_json, toy_json_laws}
use winkd.Tests.Codes.{All-replicate}

abbrev pub first_key : Bytes
first_key = replicate 32 7

pub first_key-IsKey : IsKey first_key
first_key-IsKey = (All-replicate 7 32 (omega arith), refl)

abbrev pub rk : Str
rk = lit "QQ=="

abbrev pub fresh : RatchetSession
fresh = record {
  root_key = lit "00";
  send_chain_key = some (buf_to_hex (chain first_key 2));
  recv_chain_key = some (buf_to_hex (chain first_key 0));
  send_count = 2;
  recv_count = 0;
  prev_send_count = 0;
  our_ratchet_public = rk;
  our_ratchet_private = lit "{}";
  their_ratchet_public = some rk;
  skipped = [];
  is_initiator = false;
  pending_pre_key_msg = none;
}

pub fresh-Receives : Receives first_key rk nothing_received fresh
unfolding get
fresh-Receives = record {
  key = first_key-IsKey;
  named = refl;
  their = refl;
  at_chain = refl;
  saved = λ n. ground arith;
  below = λ n h. cc;
}

retrieve_key-Receives_example :
    (s' : RatchetSession) × (retrieve_key fresh rk 3 ≡ ok (message_key first_key 3, s'))
    × Receives first_key rk (mark 3 nothing_received) s'
    × (s' ≡ record fresh {
      recv_chain_key = s'.recv_chain_key;
      recv_count = s'.recv_count;
      skipped = s'.skipped;
    })
    × (0 ≤ s'.recv_count)
retrieve_key-Receives_example =
    retrieve_key-Receives toy_laws first_key rk nothing_received fresh 3 fresh-Receives refl
      (omega arith)

retrieve_all-message_keys_example :
    retrieve_all fresh rk (2 ∷ 0 ∷ 500 ∷ 1 ∷ [])
    ≡ ok (map (message_key first_key) (2 ∷ 0 ∷ 500 ∷ 1 ∷ []))
retrieve_all-message_keys_example =
    retrieve_all-message_keys toy_laws first_key rk nothing_received fresh (2 ∷ 0 ∷ 500 ∷ 1 ∷ [])
      fresh-Receives (refl, (refl, (refl, (refl, tt)))) (omega arith)

retrieve_key-far_example : retrieve_key fresh rk 501 ≡ err too_many_skipped
retrieve_key-far_example =
    retrieve_key-far toy_laws first_key rk nothing_received fresh 501 fresh-Receives (omega arith)

-- The session once message 0 was received.
abbrev second : RatchetSession
second = record fresh { recv_chain_key = some (buf_to_hex (chain first_key 1)); recv_count = 1 }

second-Receives : Receives first_key rk (mark 0 nothing_received) second
unfolding get
second-Receives = record {
  key = first_key-IsKey;
  named = refl;
  their = refl;
  at_chain = refl;
  saved = λ n. ground arith;
  below = λ n h. ground arith;
}

retrieve_key_replay_example :
    (retrieve_key second rk 0
      ≡ ok (
        message_key first_key 1,
        record second { recv_chain_key = some (buf_to_hex (chain first_key 2)); recv_count = 1 },
      ))
    × (1 < 2)
retrieve_key_replay_example =
    retrieve_key_replay toy_laws first_key rk (mark 0 nothing_received) second 0 second-Receives
      refl

fresh-Sends : Sends first_key fresh
unfolding first_params
fresh-Sends = record {
  key = first_key-IsKey;
  at_chain = refl;
  public_latin1 = omega arith;
  params_latin1 = tt;
}

abbrev pub device : Device InMemory
device = record { store = in_memory.store_session (lit "bob#0001") fresh empty; draws = 0 }

pub device_loads : in_memory.load_session (lit "bob#0001") device.store ≡ some fresh
unfolding get put str_eq
device_loads = refl

message_arrives_example :
    (envelope : EncryptedEnvelope) × (sent : Device InMemory) × (got : Device InMemory)
    × (sb : RatchetSession) × (encrypt (lit "bob#0001") (lit "hi") device ≡ (ok envelope, sent))
    × (envelope.type ≡ 2)
    × (decrypt (lit "bob#0001") envelope device ≡ (ok (lit "hi"), got))
    × (in_memory.load_session (lit "bob#0001") sent.store ≡ some (after_send first_key fresh))
    × (in_memory.load_session (lit "bob#0001") got.store ≡ some sb)
    × Sends first_key (after_send first_key fresh)
    × Receives first_key rk (mark 2 nothing_received) sb
unfolding first_params is_well_formed
message_arrives_example =
    message_arrives toy_laws toy_json_laws InMemory-IsKeyStore InMemory-IsKeyStore (lit "bob#0001")
      (lit "bob#0001") (lit "hi") device device fresh fresh first_key nothing_received device_loads
      device_loads fresh-Sends fresh-Receives refl refl (omega arith) refl

while_below-skip_loop_example :
    while_below 4 5 rk (record { chain_key = buf_to_hex first_key; count = 2; skipped = [] })
    ≡ some (skip_loop 3 rk (record { chain_key = buf_to_hex first_key; count = 2; skipped = [] }))
while_below-skip_loop_example =
    while_below-skip_loop 4 5 rk
      (record { chain_key = buf_to_hex first_key; count = 2; skipped = [] }) (omega arith)
