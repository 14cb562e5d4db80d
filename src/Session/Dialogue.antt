-- ===== src/Session/Dialogue.antt =====
-- Two devices that talk in turns: the states of their sessions between two messages, when every
-- message arrives before the next is sent.
pub mod Holding
pub mod Turning
pub mod Answering
pub mod Opening
pub mod Talk
pub mod WholeConversation
use winkd.Prelude.{ℕ, suc, ◌+◌, ◌<◌, ◌≤◌, ◌≡◌, Bool, false, none, some, Option, [], Str, str_eq}
use winkd.Codec.Hex.{Bytes, buf_to_hex}
use winkd.Result.{Result, ok, err}
use winkd.KeyTypes.{RatchetSession, EncryptedEnvelope}
use winkd.KeyStore.{KeyStore}
use winkd.Crypto.WebCrypto.{WebCrypto}
use winkd.Crypto.Keys.{dh}
use winkd.Crypto.Kdf.{kdf_root_key}
use winkd.Crypto.X3dh.Agreement.{public_key, private_key}
use winkd.Session.Device.{Device, WireJson}
use winkd.Session.Ratchet.Delivery.{Receives}
use winkd.Session.Ratchet.InOrder.{CaughtUp, before}
use winkd.Session.Sending.{Sends}
use winkd.Session.Manager.{encrypt, decrypt}

module _ ⦃web : WebCrypto⦄ where
  -- The holder's key pair is the one that both know; the replier has drawn a newer one, which the
  -- holder has not seen, and has a chain for it that the holder can derive.
  pub record Paired (holder_draw replier_draw : ℕ) (holder replier : RatchetSession) : Type 0 where
    -- the replier's pair that the holder knows
    pub old_draw : ℕ
    pub older : old_draw < replier_draw
    pub known : holder.their_ratchet_public ≡ some (public_key old_draw)
    pub holder_public : holder.our_ratchet_public ≡ public_key holder_draw
    pub holder_private : holder.our_ratchet_private ≡ private_key holder_draw
    pub replier_public : replier.our_ratchet_public ≡ public_key replier_draw
    pub replier_private : replier.our_ratchet_private ≡ private_key replier_draw
    -- the chain of the holder, all of whose messages the replier has
    pub chain_key : Bytes
    pub sends : Sends chain_key holder
    pub receives : Receives chain_key (public_key holder_draw) (before replier.recv_count) replier
    pub all_received : replier.recv_count ≡ holder.send_count
    -- the chain of the replier, on which nothing was sent
    pub bits : Bytes
    pub reply_key : Bytes
    pub shared : dh (private_key replier_draw) (public_key holder_draw) ≡ ok bits
    pub root_step :
        kdf_root_key holder.root_key bits
        ≡ record { new_root_key = replier.root_key; chain_key = buf_to_hex reply_key }
    pub replies : Sends reply_key replier
    pub unsent : replier.send_count ≡ 0
    -- the old chain of the replier
    pub caught_up : CaughtUp replier.prev_send_count holder
    pub holder_skipped : holder.skipped ≡ []
    pub replier_skipped : replier.skipped ≡ []
    pub holder_pending : holder.pending_pre_key_msg ≡ none
    pub replier_pending : replier.pending_pre_key_msg ≡ none

  -- Of the key pairs of the first `limit` draws, no two have the same public key.
  abbrev pub AreDifferent : ℕ → Type 0
  AreDifferent limit = (i j : ℕ) → i < j → j < limit → str_eq (public_key i) (public_key j) ≡ false

  -- The devices store such sessions for each other, and drew their pairs before.
  pub record Talking {S T : Type 0} (hold : KeyStore S) (reply : KeyStore T)
      (to_replier to_holder : Str) (dh : Device S) (dr : Device T) : Type 0 where
    pub holder_draw : ℕ
    pub replier_draw : ℕ
    pub holder : RatchetSession
    pub replier : RatchetSession
    pub held : hold.load_session to_replier dh.store ≡ some holder
    pub replied : reply.load_session to_holder dr.store ≡ some replier
    pub paired : Paired holder_draw replier_draw holder replier
    pub holder_drawn : holder_draw < dh.draws
    pub replier_drawn : replier_draw < dr.draws

module _ {S T : Type 0} ⦃web : WebCrypto⦄ ⦃json : WireJson⦄ ⦃send : KeyStore S⦄
    ⦃receive : KeyStore T⦄ where
  abbrev hand_over :
      Str → Result EncryptedEnvelope × Device S → Device T → Result Str × Device S × Device T
  hand_over to_sender (err e, ds) dr = (err e, ds, dr)
  hand_over to_sender (ok envelope, ds) dr =
      let (text, got) = decrypt to_sender envelope dr in (text, ds, got)

  -- One message: the sender encrypts it, and the envelope goes straight to the receiver.
  unfoldable pub relay : Str → Str → Str → Device S → Device T → Result Str × Device S × Device T
  relay to_receiver to_sender plaintext ds dr =
      hand_over to_sender (encrypt to_receiver plaintext ds) dr
