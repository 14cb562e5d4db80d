-- ===== src/Session/Dialogue/Turning.antt =====
-- The sessions when the replier's first message has made the holder take a DH ratchet step: the two
-- have changed places.
use winkd.Prelude.{ℕ, suc, ◌<◌, ◌≡◌, refl, sym, ap, ◌∙◌, none, some, [], arith, inr}
use winkd.Prelude.Dict.{get}
use winkd.Codec.Hex.{Bytes, buf_to_hex}
use winkd.Result.{ok}
use winkd.KeyTypes.{RatchetSession}
use winkd.Crypto.WebCrypto.{WebCrypto}
use winkd.Crypto.Assumptions.{IsWebCrypto}
use winkd.Crypto.Keys.{generate_dh_key_pair, dh}
use winkd.Crypto.Kdf.{kdf_root_key}
use winkd.Crypto.Kdf.Chain.{IsKey, chain, message_key}
use winkd.Crypto.X3dh.Agreement.{public_key, private_key, dh_comm, public_key-IsBytes}
use winkd.Session.Ratchet.{retrieve_key, ratchet_receive, ratchet_send}
use winkd.Session.Ratchet.Delivery.{Receives}
use winkd.Session.Ratchet.InOrder.{
  before, after_receive, retrieve_key_next, after_receive-Receives, skip_message_keys-CaughtUp,
}
use winkd.Session.Manager.{pending_after}
use winkd.Session.Sending.{Sends, after_send, after_send-Sends}
use winkd.Session.Handshake.Responder.{truthy-public_key}
use winkd.Session.Dialogue.{Paired}
use winkd.Session.Dialogue.Holding.{first_params-none, CaughtUp-after_send}

module _ ⦃web : WebCrypto⦄ where
  -- The holder's session after both steps of the ratchet: it receives on the replier's chain, and
  -- sends on a new one, with the key pair of draw n.
  unfoldable pub turned :
      (j n : ℕ) (received_key root send_key : Bytes) → RatchetSession → RatchetSession
  turned j n received_key root send_key a = record a {
    root_key = buf_to_hex root;
    send_chain_key = some (buf_to_hex send_key);
    recv_chain_key = some (buf_to_hex received_key);
    send_count = 0;
    recv_count = 0;
    prev_send_count = a.send_count;
    our_ratchet_public = public_key n;
    our_ratchet_private = private_key n;
    their_ratchet_public = some (public_key j);
  }

module _ ⦃web : WebCrypto⦄ (laws : IsWebCrypto web) where
  -- The holder derives the chain on which the replier sends.
  pub ratchet_receive-Paired :
      (i j : ℕ) (a b : RatchetSession) (p : Paired i j a b)
      → ratchet_receive a (public_key j) b.prev_send_count
        ≡ ok (record a {
          recv_chain_key = some (buf_to_hex p.reply_key);
          root_key = b.root_key;
          recv_count = 0;
        })
  unfolding ratchet_receive
  ratchet_receive-Paired i j a b p =
      rw
        (
          skip_message_keys-CaughtUp laws b.prev_send_count a p.caught_up,
          p.holder_private,
          dh_comm laws i j ∙ p.shared,
          p.root_step,
        )
        refl

  turned-Receives :
      (j n : ℕ) (received_key root send_key : Bytes) (a : RatchetSession)
      → IsKey received_key
      → a.skipped ≡ []
      → Receives received_key (public_key j) (before 0) (turned j n received_key root send_key a)
  unfolding turned chain get
  turned-Receives j n received_key root send_key a key empty = record {
    key = key;
    named = truthy-public_key laws j;
    their = refl;
    at_chain = refl;
    saved = λ m. rw empty (ground arith);
    below = λ m h. ground arith;
  }

  turned-Sends :
      (j n : ℕ) (received_key root send_key : Bytes) (a : RatchetSession)
      → IsKey send_key
      → a.pending_pre_key_msg ≡ none
      → Sends send_key (after_receive received_key (turned j n received_key root send_key a))
  unfolding turned chain after_receive
  turned-Sends j n received_key root send_key a key nothing = record {
    key = key;
    at_chain = refl;
    public_latin1 = public_key-IsBytes laws n;
    params_latin1 =
        rw
          (first_params-none (after_receive received_key (turned j n received_key root send_key a))
            nothing)
          tt;
  }

  -- The holder starts a chain of its own.
  pub ratchet_send-turned :
      (i j n : ℕ) (bits root send_key : Bytes) (a b : RatchetSession) (p : Paired i j a b)
      → dh (private_key n) (public_key j) ≡ ok bits
      → kdf_root_key b.root_key bits
        ≡ record { new_root_key = buf_to_hex root; chain_key = buf_to_hex send_key }
      → ratchet_send
          (record a {
            recv_chain_key = some (buf_to_hex p.reply_key);
            root_key = b.root_key;
            recv_count = 0;
          })
          (public_key j)
          (generate_dh_key_pair n)
        ≡ ok (turned j n p.reply_key root send_key a)
  unfolding ratchet_send turned
  ratchet_send-turned i j n bits root send_key a b p e1 e2 = rw (e1, e2) refl

  -- The key of the first message of the replier's chain.
  pub retrieve_key-turned :
      (i j n : ℕ) (root send_key : Bytes) (a b : RatchetSession) (p : Paired i j a b)
      → retrieve_key (turned j n p.reply_key root send_key a) (public_key j) 0
        ≡ ok (
          message_key p.reply_key 0,
          after_receive p.reply_key (turned j n p.reply_key root send_key a),
        )
  unfolding turned
  retrieve_key-turned i j n root send_key a b p =
      retrieve_key_next laws p.reply_key (public_key j) (before 0)
        (turned j n p.reply_key root send_key a)
        (turned-Receives j n p.reply_key root send_key a p.replies.key p.holder_skipped)

  -- The two change places.
  pub turn-Paired :
      (i j n : ℕ) (bits root send_key : Bytes) (a b : RatchetSession) (p : Paired i j a b)
      → i < n
      → dh (private_key n) (public_key j) ≡ ok bits
      → kdf_root_key b.root_key bits
        ≡ record { new_root_key = buf_to_hex root; chain_key = buf_to_hex send_key }
      → IsKey send_key
      → Paired j n
          (after_send p.reply_key b)
          (after_receive p.reply_key (turned j n p.reply_key root send_key a))
  unfolding turned after_receive after_send
  turn-Paired i j n bits root send_key a b p later e1 e2 key =
      let there = turned-Receives j n p.reply_key root send_key a p.replies.key p.holder_skipped in
      record {
        old_draw = i;
        older = later;
        known = p.receives.their;
        holder_public = p.replier_public;
        holder_private = p.replier_private;
        replier_public = refl;
        replier_private = refl;
        chain_key = p.reply_key;
        sends = after_send-Sends p.reply_key b p.replies;
        receives =
            after_receive-Receives laws p.reply_key (public_key j)
              (turned j n p.reply_key root send_key a) there;
        all_received = ap suc (sym p.unsent);
        bits = bits;
        reply_key = send_key;
        shared = e1;
        root_step = e2;
        replies = turned-Sends j n p.reply_key root send_key a key p.holder_pending;
        unsent = refl;
        caught_up =
            CaughtUp-after_send laws p.reply_key a.send_count b
              (inr (p.chain_key, public_key i, before b.recv_count, p.receives, p.all_received));
        holder_skipped = p.replier_skipped;
        replier_skipped = p.holder_skipped;
        holder_pending =
            ap (λ o. pending_after o b.pending_pre_key_msg) (first_params-none b p.replier_pending)
            ∙ p.replier_pending;
        replier_pending = p.holder_pending;
      }
