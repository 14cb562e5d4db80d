-- ===== src/Session/Dialogue/Opening.antt =====
-- After the handshake and the first message, the two devices talk in turns.
use winkd.Prelude.{ℕ, suc, ◌<◌, refl, sym, ap, some, subst, inl}
use winkd.KeyTypes.{PreKeyBundle, RatchetSession}
use winkd.Crypto.WebCrypto.{WebCrypto}
use winkd.Crypto.Assumptions.{IsWebCrypto}
use winkd.Crypto.X3dh.Agreement.{public_key}
use winkd.Session.Ratchet.{first_params}
use winkd.Session.Ratchet.InOrder.{before, after_receive}
use winkd.Session.Ratchet.Delivery.{Receives}
use winkd.Session.Sending.{after_send, after_send-Sends}
use winkd.Session.Handshake.Agreed.{Draws, Agreed}
use winkd.Session.Handshake.Initiator.{Shows, initiator_session, initiator_session-Sends}
use winkd.Session.Handshake.Responder.{Responds}
use winkd.Session.Handshake.FirstMessage.{Responds-after_receive}
use winkd.Session.Dialogue.{Paired}

module _ ⦃web : WebCrypto⦄ (laws : IsWebCrypto web) where
  -- The initiator is the holder, the responder the replier.
  pub first-Paired :
      {k : Draws} (a : Agreed k) (bundle : PreKeyBundle) (n : ℕ) (s : RatchetSession)
      → Shows k bundle
      → k.signed_pre_key < n
      → Responds a n s
      → Paired k.ratchet n
          (after_send a.first_chain (initiator_session a bundle))
          (after_receive a.first_chain s)
  unfolding after_send initiator_session after_receive first_params
  first-Paired {k} a bundle n s shows older r = record {
    old_draw = k.signed_pre_key;
    older = older;
    known = ap some shows.signed;
    holder_public = refl;
    holder_private = refl;
    replier_public = r.our_public;
    replier_private = r.our_private;
    chain_key = a.first_chain;
    sends = after_send-Sends a.first_chain _ (initiator_session-Sends laws a bundle);
    receives =
        subst
          (λ m.
            Receives a.first_chain (public_key k.ratchet) (before (suc m))
              (after_receive a.first_chain s))
          (sym r.fresh) (Responds-after_receive laws a n s r);
    all_received = ap suc r.fresh;
    bits = r.bits;
    reply_key = r.reply_chain;
    shared = r.shared;
    root_step = r.root_step;
    replies = record {
      key = r.sends.key;
      at_chain = r.sends.at_chain;
      public_latin1 = r.sends.public_latin1;
      params_latin1 = r.sends.params_latin1;
    };
    unsent = r.unsent;
    caught_up = inl refl;
    holder_skipped = refl;
    replier_skipped = r.nothing_skipped;
    holder_pending = refl;
    replier_pending = r.nothing_pending;
  }
