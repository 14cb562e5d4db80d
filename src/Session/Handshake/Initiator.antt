-- ===== src/Session/Handshake/Initiator.antt =====
-- `initSessionFromBundle`.
use winkd.Prelude.{ℕ, suc, ◌≡◌, refl, true, Option, none, some, [], Str}
use winkd.Codec.Hex.{buf_to_hex}
use winkd.Result.{ok}
use winkd.KeyTypes.{PreKeyBundle, RatchetSession, PendingPreKey, PublicPreKey}
use winkd.KeyStore.{KeyStore}
use winkd.Crypto.WebCrypto.{WebCrypto}
use winkd.Crypto.Assumptions.{IsWebCrypto}
use winkd.Crypto.PreKeys.{verify_pre_key}
use winkd.Crypto.Kdf.Chain.{chain}
use winkd.Crypto.X3dh.Agreement.{public_key, private_key, public_half, public_key-IsBytes}
use winkd.Session.Device.{Device, WireJson}
use winkd.Session.Ratchet.{first_params}
use winkd.Session.Manager.{init_session_from_bundle}
use winkd.Session.Sending.{Sends}
use winkd.Session.Handshake.Agreed.{Draws, Agreed}

abbrev pub pre_key_id : Option PublicPreKey → Option ℕ
pre_key_id o = elim o [ none ↦ none | some k ↦ some k.id ]

abbrev pub pre_key_public : Option PublicPreKey → Option Str
pre_key_public o = elim o [ none ↦ none | some k ↦ some k.public_key ]

module _ ⦃web : WebCrypto⦄ where
  abbrev pub params_sent : Draws → PreKeyBundle → PendingPreKey
  params_sent k bundle = record {
    identity_key = public_key k.identity;
    ephemeral_key = public_key k.ephemeral;
    spk_id = bundle.signed_pre_key.id;
    opk_id = pre_key_id bundle.one_time_pre_key;
  }

  -- The session that the initiator stores.
  unfoldable pub initiator_session : {k : Draws} → Agreed k → PreKeyBundle → RatchetSession
  initiator_session {k} a bundle = record {
    root_key = buf_to_hex a.root;
    send_chain_key = some (buf_to_hex a.first_chain);
    recv_chain_key = none;
    send_count = 0;
    recv_count = 0;
    prev_send_count = 0;
    our_ratchet_public = public_key k.ratchet;
    our_ratchet_private = private_key k.ratchet;
    their_ratchet_public = some bundle.signed_pre_key.public_key;
    skipped = [];
    is_initiator = true;
    pending_pre_key_msg = some (params_sent k bundle);
  }

  -- The bundle shows the public keys of these draws.
  pub record Shows (k : Draws) (bundle : PreKeyBundle) : Type 0 where
    pub identity : bundle.identity_key ≡ public_key k.their_identity
    pub signed : bundle.signed_pre_key.public_key ≡ public_key k.signed_pre_key
    pub one_time : pre_key_public bundle.one_time_pre_key ≡ public_half k.one_time
    pub verified :
        verify_pre_key bundle.identity_key bundle.signed_pre_key.public_key
          bundle.signed_pre_key.signature
        ≡ true

module _ ⦃web : WebCrypto⦄ (laws : IsWebCrypto web) where
  -- The initiator's session sends on the chain that both sides agree on.
  pub initiator_session-Sends :
      {k : Draws} (a : Agreed k) (bundle : PreKeyBundle)
      → Sends a.first_chain (initiator_session a bundle)
  unfolding initiator_session chain first_params
  initiator_session-Sends {k} a bundle = record {
    key = a.chain_is_key;
    at_chain = refl;
    public_latin1 = public_key-IsBytes laws k.ratchet;
    params_latin1 = (public_key-IsBytes laws k.identity, public_key-IsBytes laws k.ephemeral);
  }

module _ {S : Type 0} ⦃web : WebCrypto⦄ ⦃json : WireJson⦄ ⦃ks : KeyStore S⦄ where
  pub init_session_from_bundle-eq :
      (peer : Str) (bundle : PreKeyBundle) (d : Device S) (k : Draws) (a : Agreed k)
      → k.ephemeral ≡ d.draws
      → k.ratchet ≡ suc k.ephemeral
      → Shows k bundle
      → ks.get_identity_key_pair d.store
        ≡ some (record { public_key = public_key k.identity; private_key = private_key k.identity })
      → init_session_from_bundle peer bundle d ≡ (
        ok tt,
        record {
          store = ks.store_session peer (initiator_session a bundle) d.store;
          draws = suc (suc d.draws);
        },
      )
  unfolding init_session_from_bundle initiator_session
  init_session_from_bundle-eq peer bundle d k a e1 e2 shows ours =
      rw (shows.verified, ours, ← e1, ← e2, shows.identity, shows.signed, shows.one_time)
        (rw (a.initiator_secret, a.initiator_bits, a.root_step))
