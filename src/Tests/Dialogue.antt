-- ===== src/Tests/Dialogue.antt =====
-- A conversation of six messages between two concrete devices.
use winkd.Prelude.{
  ℕ, ◌+◌, ◌%◌, ◌≡◌, refl, sym, ap, ◌∙◌, inl, inr, some, Option, List, [], ◌∷◌, Str, lit, str_eq,
  str_eq_iff, Bool-cases, arith,
}
use winkd.Codec.Hex.{Bytes}
use winkd.Codec.Base64.{base64_to_buf}
use winkd.Codec.Base64.Laws.{base64_to_buf-buf_to_base64}
use winkd.KeyStore.InMemory.{InMemory, in_memory, InMemory-IsKeyStore}
use winkd.Result.{ok}
use winkd.Crypto.Keys.{generate_dh_key_pair}
use winkd.Crypto.Assumptions.{is_well_formed}
use winkd.Crypto.X3dh.Agreement.{public_key}
use winkd.Session.Device.{Device}
use winkd.Session.Manager.{init_session_from_bundle}
use winkd.Session.Dialogue.{AreDifferent}
use winkd.Session.Dialogue.Talk.{Speaker, initiator, responder, talk, texts}
use winkd.Session.Dialogue.WholeConversation.{conversation_arrives}
use winkd.Tests.Handshake.{keys, bundle, alice_device, bob_device, bundle-Shows, bob-HoldsKeys}
use winkd.Tests.Toy.{toy, toy_laws, toy_json, toy_json_laws}

abbrev head_or_zero : Option Bytes → ℕ
head_or_zero (some (b ∷ bs)) = b
head_or_zero _ = 0

public_key_draw : (i : ℕ) → head_or_zero (base64_to_buf (public_key i)) ≡ (i % 256 + 0) % 256
unfolding generate_dh_key_pair
public_key_draw i = ap head_or_zero (
    base64_to_buf-buf_to_base64 (toy.export_raw (toy.generate_key i).0)
      (toy_laws.export_raw_bytes i))

keys_differ : AreDifferent 256
keys_differ i j before bound = elim (Bool-cases (str_eq (public_key i) (public_key j))) [
  | inr different ↦ different
  | inl same ↦
      let e : public_key i ≡ public_key j = (str_eq_iff (public_key i) (public_key j)).0 same in
      absurd (
        omega (
          arith,
          sym (public_key_draw i) ∙ ap (λ t. head_or_zero (base64_to_buf t)) e ∙ public_key_draw j,
        ))
]

abbrev messages : List (Speaker × Str)
messages =
    (initiator, lit "are you there?")
    ∷ (responder, lit "yes")
    ∷ (responder, lit "hi")
    ∷ (initiator, lit "good")
    ∷ (responder, lit "bye")
    ∷ []

conversation_arrives_example :
    (ready : Device InMemory) × (init_session_from_bundle (lit "bob#0002") bundle alice_device
      ≡ (ok tt, ready))
    × (talk
          (lit "bob#0002")
          (lit "alice#0001")
          ((initiator, lit "hello") ∷ messages)
          ready
          bob_device
        ≡ texts ((initiator, lit "hello") ∷ messages))
unfolding is_well_formed
conversation_arrives_example =
    conversation_arrives toy_laws toy_json_laws InMemory-IsKeyStore InMemory-IsKeyStore 256
      (lit "bob#0002") (lit "alice#0001") (lit "hello") bundle keys alice_device bob_device messages
      keys_differ refl refl (omega arith) refl bundle-Shows bob-HoldsKeys
      (refl, (refl, (refl, (refl, (refl, (refl, tt)))))) (omega arith) (omega arith)
