-- ===== src/Session/Dialogue/WholeConversation.antt =====
-- `initSessionFromBundle`, and then `encrypt` and `decrypt` for each message of a conversation.
use winkd.Prelude.{
  ℕ, suc, ◌+◌, ◌<◌, ◌≤◌, ◌≡◌, refl, ap, true, some, List, ◌∷◌, length, Str, arith, inl,
}
use winkd.Result.{ok}
use winkd.KeyTypes.{PreKeyBundle}
use winkd.KeyStore.{KeyStore, IsKeyStore}
use winkd.Crypto.WebCrypto.{WebCrypto}
use winkd.Crypto.Assumptions.{IsWebCrypto, is_well_formed}
use winkd.Crypto.X3dh.Agreement.{public_key, private_key}
use winkd.Session.Device.{Device, WireJson}
use winkd.Session.Manager.{init_session_from_bundle, params_of}
use winkd.Session.Messages.{IsWireJson}
use winkd.Session.Ratchet.InOrder.{after_receive}
use winkd.Session.Sending.{after_send}
use winkd.Session.Handshake.Agreed.{Draws, agree}
use winkd.Session.Handshake.Initiator.{Shows, params_sent, initiator_session}
use winkd.Session.Handshake.Responder.{HoldsKeys}
use winkd.Session.Handshake.FirstMessage.{first_exchange}
use winkd.Session.Dialogue.{AreDifferent, Talking, relay}
use winkd.Session.Dialogue.Opening.{first-Paired}
use winkd.Session.Dialogue.Talk.{Speaker, initiator, AreWellFormed, talk, texts, talk_arrives}

module _ {S T : Type 0} ⦃web : WebCrypto⦄ ⦃json : WireJson⦄ ⦃alice : KeyStore S⦄ ⦃bob : KeyStore T⦄
    (laws : IsWebCrypto web) (json_laws : IsWireJson json) (alice_laws : IsKeyStore alice)
    (bob_laws : IsKeyStore bob) where
  -- After the first message, the devices hold sessions that talk in turns.
  first_relay :
      (to_bob to_alice plaintext : Str) (bundle : PreKeyBundle) (k : Draws) (da : Device S)
      (db : Device T)
      → k.ephemeral ≡ da.draws
      → k.ratchet ≡ suc k.ephemeral
      → k.signed_pre_key < db.draws
      → alice.get_identity_key_pair da.store
        ≡ some (record { public_key = public_key k.identity; private_key = private_key k.identity })
      → Shows k bundle
      → HoldsKeys bob k (params_of (params_sent k bundle)) db.store
      → is_well_formed plaintext ≡ true
      → (ready : Device S) × (sent : Device S) × (got : Device T) × (init_session_from_bundle to_bob
            bundle da
          ≡ (ok tt, ready))
        × (relay to_bob to_alice plaintext ready db ≡ (ok plaintext, sent, got))
        × Talking alice bob to_bob to_alice sent got
        × (sent.draws ≡ da.draws + 3)
        × (got.draws ≡ suc db.draws)
  unfolding relay
  first_relay to_bob to_alice plaintext bundle k da db e1 e2 older ours shows keys fine =
      let a = agree laws k in
      let (ready, envelope, sent, got, s, made, run, _, opens, la, lb, r, n, m) =
        first_exchange laws json_laws alice_laws bob_laws to_bob to_alice plaintext bundle k da db
          e1 e2 ours shows keys fine in
      (
        ready,
        sent,
        got,
        made,
        rw (run, opens) refl,
        record {
          holder_draw = k.ratchet;
          replier_draw = db.draws;
          holder = after_send a.first_chain (initiator_session a bundle);
          replier = after_receive a.first_chain s;
          held = la;
          replied = lb;
          paired = first-Paired laws a bundle db.draws s shows older r;
          holder_drawn = omega arith;
          replier_drawn = omega arith;
        },
        n,
        m,
      )

  -- Alice has an identity key, Bob holds the private keys of a bundle whose signature verifies, and
  -- drew its signed pre-key before. A conversation is a list of texts, without lone surrogates,
  -- each said by Alice or by Bob, that Alice begins; each message is encrypted when the one before
  -- it was read. Of the key pairs of the first `limit` draws no two have the same public key, and
  -- neither device draws further than that. Then `initSessionFromBundle` on Alice's device succeeds,
  -- and every `decrypt` of the conversation returns the text that was sent, however often the
  -- speakers change.
  -- Assumes `IsWebCrypto`, `IsWireJson`, and `IsKeyStore` of both stores.
  pub conversation_arrives :
      (limit : ℕ) (to_bob to_alice plaintext : Str) (bundle : PreKeyBundle) (k : Draws)
      (da : Device S) (db : Device T) (later : List (Speaker × Str))
      → AreDifferent limit
      → k.ephemeral ≡ da.draws
      → k.ratchet ≡ suc k.ephemeral
      → k.signed_pre_key < db.draws
      → alice.get_identity_key_pair da.store
        ≡ some (record { public_key = public_key k.identity; private_key = private_key k.identity })
      → Shows k bundle
      → HoldsKeys bob k (params_of (params_sent k bundle)) db.store
      → AreWellFormed ((initiator, plaintext) ∷ later)
      → da.draws + 3 + length later ≤ limit
      → db.draws + 1 + length later ≤ limit
      → (ready : Device S) × (init_session_from_bundle to_bob bundle da ≡ (ok tt, ready))
        × (talk to_bob to_alice ((initiator, plaintext) ∷ later) ready db
            ≡ texts ((initiator, plaintext) ∷ later))
  conversation_arrives limit to_bob to_alice plaintext bundle k da db later different e1 e2 older
        ours shows keys (fine, more) ha hb =
      let (ready, sent, got, made, e, t, n, m) =
        first_relay to_bob to_alice plaintext bundle k da db e1 e2 older ours shows keys fine in
      (
        ready,
        made,
        rw e (
            ap (λ rest. ok plaintext ∷ rest)
              (talk_arrives laws json_laws alice_laws bob_laws limit different to_bob to_alice later
                sent got (inl t) (omega arith) (omega arith) more)),
      )
