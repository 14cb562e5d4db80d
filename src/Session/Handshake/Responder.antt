-- ===== src/Session/Handshake/Responder.antt =====
-- `initSessionFromPreKey`.
use winkd.Prelude.{
  ℕ, suc, ◌≡◌, refl, ap, ap₂, sym, ◌∙◌, Bool, false, Option, none, some, [], Str, arith,
  str_eq_instance,
}
use winkd.Prelude.Dict.{get}
use winkd.Codec.Hex.{Bytes, buf_to_hex}
use winkd.Result.{ok}
use winkd.KeyTypes.{RatchetSession, X3dhParams, WireMessage}
use winkd.KeyStore.{KeyStore}
use winkd.Crypto.WebCrypto.{WebCrypto}
use winkd.Crypto.Assumptions.{IsWebCrypto}
use winkd.Crypto.Keys.{dh}
use winkd.Crypto.Kdf.{kdf_root_key}
use winkd.Crypto.Kdf.Chain.{chain, message_key, kdf_root_key-IsKey}
use winkd.Crypto.X3dh.Agreement.{
  public_key, private_key, private_half, public_key-IsBytes, length-public_key_pos, dh_total,
}
use winkd.Session.Device.{Device, WireJson}
use winkd.Session.Ratchet.{truthy, first_params, key_changed, retrieve_key}
use winkd.Session.Ratchet.InOrder.{after_receive, retrieve_key_next}
use winkd.Session.Receiving.{key_changed_same}
use winkd.Session.Ratchet.Delivery.{Receives, truthy-some}
use winkd.Session.Manager.{init_session_from_pre_key, consume_pre_key}
use winkd.Session.Sending.{Sends}
use winkd.Session.Handshake.Agreed.{Draws, Agreed}

abbrev pub nothing_received : ℕ → Bool
nothing_received n = false

module _ {T : Type 0} ⦃web : WebCrypto⦄ (ks : KeyStore T) where
  -- The one-time pre-key that a message names is the one of the draw, or it names none.
  abbrev pub HoldsOneTime : Option ℕ → Option ℕ → T → Type 0
  HoldsOneTime none none store = Unit {0}
  HoldsOneTime (some draw) (some id) store =
      ks.load_pre_key id store
      ≡ some (record { id = id; public_key = public_key draw; private_key = private_key draw })
  HoldsOneTime _ _ store = ⊥

  -- The store once the one-time pre-key is used up.
  abbrev pub consumed : Option ℕ → T → T
  consumed none store = store
  consumed (some id) store = ks.remove_pre_key id store

  -- The responder's store holds the private keys of these draws, under the ids of the message.
  pub record HoldsKeys (k : Draws) (p : X3dhParams) (store : T) : Type 0 where
    pub signature : Str
    pub identity :
        ks.get_identity_key_pair store
        ≡ some (record {
          public_key = public_key k.their_identity;
          private_key = private_key k.their_identity;
        })
    pub signed :
        ks.load_signed_pre_key p.spk_id store
        ≡ some (record {
          id = p.spk_id;
          public_key = public_key k.signed_pre_key;
          private_key = private_key k.signed_pre_key;
          signature = signature;
        })
    pub one_time : HoldsOneTime k.one_time p.opk_id store

module _ ⦃web : WebCrypto⦄ where
  -- The session of a responder: it receives on the agreed chain, under the sender's ratchet key,
  -- and has a sending chain of its own, with the key pair of draw n, that the sender can derive.
  pub record Responds {k : Draws} (a : Agreed k) (n : ℕ) (s : RatchetSession) : Type 0 where
    pub receives : Receives a.first_chain (public_key k.ratchet) nothing_received s
    pub fresh : s.recv_count ≡ 0
    pub bits : Bytes
    pub reply_chain : Bytes
    pub shared : dh (private_key n) (public_key k.ratchet) ≡ ok bits
    pub root_step :
        kdf_root_key (buf_to_hex a.root) bits
        ≡ record { new_root_key = s.root_key; chain_key = buf_to_hex reply_chain }
    pub sends : Sends reply_chain s
    pub unsent : s.send_count ≡ 0
    pub first_sending_chain : s.prev_send_count ≡ 0
    pub our_public : s.our_ratchet_public ≡ public_key n
    pub our_private : s.our_ratchet_private ≡ private_key n
    pub nothing_skipped : s.skipped ≡ []
    pub nothing_pending : s.pending_pre_key_msg ≡ none

module _ ⦃web : WebCrypto⦄ (laws : IsWebCrypto web) where
  pub truthy-public_key : (i : ℕ) → truthy (some (public_key i)) ≡ some (public_key i)
  truthy-public_key i = truthy-some (public_key i) (omega (arith, length-public_key_pos laws i))

module _ {T : Type 0} ⦃web : WebCrypto⦄ ⦃json : WireJson⦄ ⦃ks : KeyStore T⦄
    (laws : IsWebCrypto web) where
  consume_pre_key-eq :
      (draw id : Option ℕ) (d : Device T)
      → HoldsOneTime ks draw id d.store
      → consume_pre_key id d ≡ (ok (private_half draw), record d { store = consumed ks id d.store })
  consume_pre_key-eq none none d h = refl
  consume_pre_key-eq (some draw) (some id) d h = rw (h, consume_pre_key)
  consume_pre_key-eq none (some id) d h = absurd h
  consume_pre_key-eq (some draw) none d h = absurd h

  -- `initSessionFromPreKey` on a message from that initiator.
  pub init_session_from_pre_key-Responds :
      (peer : Str) (w : WireMessage) (p : X3dhParams) (d : Device T) (k : Draws) (a : Agreed k)
      → w.params ≡ some p
      → w.h.rk ≡ public_key k.ratchet
      → p.ik ≡ public_key k.identity
      → p.ek ≡ public_key k.ephemeral
      → HoldsKeys ks k p d.store
      → (s : RatchetSession) × (init_session_from_pre_key peer w d ≡ (
        ok s,
        record {
          store = ks.store_session peer s (consumed ks p.opk_id d.store);
          draws = suc d.draws;
        },
      ))
        × Responds a d.draws s
  unfolding init_session_from_pre_key chain first_params get
  init_session_from_pre_key-Responds peer w p d k a has_params rk ik ek keys =
      let (bits, e1) = dh_total laws d.draws k.ratchet in
      let (root, ck, e2, _, key) = kdf_root_key-IsKey laws (buf_to_hex a.root) bits in
      let s : RatchetSession = record {
        root_key = buf_to_hex root;
        send_chain_key = some (buf_to_hex ck);
        recv_chain_key = some (buf_to_hex a.first_chain);
        send_count = 0;
        recv_count = 0;
        prev_send_count = 0;
        our_ratchet_public = public_key d.draws;
        our_ratchet_private = private_key d.draws;
        their_ratchet_public = some (public_key k.ratchet);
        skipped = [];
        is_initiator = false;
        pending_pre_key_msg = none;
      } in
      (
        s,
        rw (
          keys.identity,
          has_params,
          keys.signed,
          consume_pre_key-eq k.one_time p.opk_id d keys.one_time,
          ik,
          ek,
          rk,
          a.responder_secret,
          a.responder_bits,
          a.root_step,
          e1,
          e2,
        ),
        record {
          receives = record {
            key = a.chain_is_key;
            named = truthy-public_key laws k.ratchet;
            their = refl;
            at_chain = refl;
            saved = λ n. ground arith;
            below = λ n h. cc;
          };
          fresh = refl;
          bits = bits;
          reply_chain = ck;
          shared = e1;
          root_step = e2;
          unsent = refl;
          first_sending_chain = refl;
          our_public = refl;
          our_private = refl;
          nothing_skipped = refl;
          nothing_pending = refl;
          sends = record {
            key = key;
            at_chain = refl;
            public_latin1 = public_key-IsBytes laws d.draws;
            params_latin1 = tt;
          };
        },
      )

module _ ⦃web : WebCrypto⦄ (laws : IsWebCrypto web) where
  -- The first message of the initiator's chain needs no step of the ratchet,
  pub key_changed-Responds :
      {k : Draws} (a : Agreed k) (n : ℕ) (s : RatchetSession) (rk : Str)
      → Responds a n s
      → rk ≡ public_key k.ratchet
      → key_changed s.their_ratchet_public rk ≡ false
  key_changed-Responds {k} a n s rk r e =
      rw (r.receives.their, e) (key_changed_same (public_key k.ratchet))

  -- and gets the first key of the chain.
  pub retrieve_key-Responds :
      {k : Draws} (a : Agreed k) (n : ℕ) (s : RatchetSession) (rk : Str) (number : ℕ)
      → Responds a n s
      → rk ≡ public_key k.ratchet
      → number ≡ 0
      → retrieve_key s rk number ≡ ok (message_key a.first_chain 0, after_receive a.first_chain s)
  retrieve_key-Responds {k} a n s rk number r e zeroth =
      ap₂ (λ key number. retrieve_key s key number) e (zeroth ∙ sym r.fresh)
      ∙ retrieve_key_next laws a.first_chain (public_key k.ratchet) nothing_received s r.receives
      ∙ ap (λ m. ok (message_key a.first_chain m, after_receive a.first_chain s)) r.fresh
