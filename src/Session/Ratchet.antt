-- ===== src/Session/Ratchet.antt =====
-- The Double Ratchet on a session that is held in memory: the pure parts of `encrypt`, `decrypt`
-- and `skipMessageKeys` of packages/core/src/encryption/session.ts.
pub mod Names
pub mod Skipping
pub mod Delivery
pub mod Arrivals
pub mod Replays
pub mod InOrder
pub mod Rounds
use winkd.Prelude.{
  ℕ, zero, suc, ◌+◌, ◌-◌, Bool, true, false, ◌&&◌, Option, none, some, [], ◌∷◌, ◌++◌, Str, ltb,
  ◌==◌, if◌then◌else◌, str_eq, str_eq_instance, not,
}
use winkd.Prelude.Dict
use winkd.Prelude.Dict.{Dict}
use winkd.Codec.Hex.{Bytes, buf_to_hex, hex_to_buf}
use winkd.Codec.Decimal.{decimal}
use winkd.Result.{
  Result, ok, err, no_receiving_chain, too_many_skipped, ◌>>=◌, ◌>>◌, or_throw, throw_if,
}
use winkd.KeyTypes.{RatchetSession, PendingPreKey, WireMessage}
use winkd.Crypto.WebCrypto.{WebCrypto}
use winkd.Crypto.Keys.{DhKeyPair, generate_dh_key_pair, dh}
use winkd.Crypto.Kdf.{kdf_root_key, kdf_chain_key}

abbrev pub max_skip : ℕ
max_skip = 500

-- `null` and the empty string are both falsy.
abbrev pub truthy : Option Str → Option Str
truthy none = none
truthy (some []) = none
truthy (some (c ∷ s)) = some (c ∷ s)

-- `${ratchetPublic}:${messageNumber}`
unfoldable pub skipped_name : Str → ℕ → Str
skipped_name ratchet_public n = ratchet_public ++ b':' ∷ decimal n

-- `session.theirRatchetPublic !== theirRatchetKey`
abbrev pub key_changed : Option Str → Str → Bool
key_changed none their_key = true
key_changed (some old) their_key = not (str_eq old their_key)

-- The receiving chain while keys are skipped.
pub record SkipState : Type 0 where
  pub chain_key : Str
  pub count : ℕ
  pub skipped : Dict Str Str

module _ ⦃web : WebCrypto⦄ where
  -- The body of the `while` loop, for the rounds left.
  unfoldable pub skip_loop : ℕ → Str → SkipState → Result SkipState
  skip_loop zero their_public s = ok s
  skip_loop (suc rounds) their_public s = do
    step ← kdf_chain_key s.chain_key
    skip_loop rounds their_public (record {
      chain_key = step.next_chain_key;
      count = suc s.count;
      skipped =
          Dict.put (skipped_name their_public s.count) (buf_to_hex step.message_key) s.skipped;
    })

  -- With both keys at hand. The loop runs `target - recvCount` times.
  unfoldable pub skip_from : RatchetSession → ℕ → Str → Str → Result RatchetSession
  skip_from session target chain_key their_public = do
    throw_if (ltb (session.recv_count + max_skip) target) too_many_skipped
    s ←
        skip_loop (target - session.recv_count) their_public
          (record { chain_key = chain_key; count = session.recv_count; skipped = session.skipped })
    ok (record session {
      recv_chain_key = some s.chain_key;
      recv_count = s.count;
      skipped = s.skipped;
    })

  -- Nothing to do without a receiving chain or their key.
  abbrev skip_if_keys : RatchetSession → ℕ → Option Str → Option Str → Result RatchetSession
  skip_if_keys session target (some chain_key) (some their_public) =
      skip_from session target chain_key their_public
  skip_if_keys session target _ _ = ok session

  unfoldable pub skip_message_keys : RatchetSession → ℕ → Result RatchetSession
  skip_message_keys session target =
      skip_if_keys session target (truthy session.recv_chain_key)
        (truthy session.their_ratchet_public)

  -- The keys that are left of the old receiving chain are saved, and step A of the DH ratchet
  -- starts a new one.
  unfoldable pub ratchet_receive : RatchetSession → Str → ℕ → Result RatchetSession
  ratchet_receive old their_key prev_count = do
    session ← skip_message_keys old prev_count
    dh_out1 ← dh session.our_ratchet_private their_key
    let step1 = kdf_root_key session.root_key dh_out1
    ok (record session {
      recv_chain_key = some step1.chain_key;
      root_key = step1.new_root_key;
      recv_count = 0;
    })

  -- Step B, with the key pair that it generates: a new sending chain.
  unfoldable pub ratchet_send : RatchetSession → Str → DhKeyPair → Result RatchetSession
  ratchet_send session their_key new_kp = do
    dh_out2 ← dh new_kp.private_key_jwk their_key
    let step2 = kdf_root_key session.root_key dh_out2
    ok (record session {
      send_chain_key = some step2.chain_key;
      root_key = step2.new_root_key;
      prev_send_count = session.send_count;
      send_count = 0;
      our_ratchet_public = new_kp.public_key_raw;
      our_ratchet_private = new_kp.private_key_jwk;
      their_ratchet_public = some their_key;
    })

  -- The receiving chain moves up to the message and past it.
  unfoldable pub advance_chain : RatchetSession → ℕ → Result (Bytes × RatchetSession)
  advance_chain old msg_num = do
    session ← skip_message_keys old msg_num
    chain_key ← or_throw (truthy session.recv_chain_key) no_receiving_chain
    step ← kdf_chain_key chain_key
    ok (
      step.message_key,
      record session { recv_chain_key = some step.next_chain_key; recv_count = suc msg_num },
    )

  -- The key that was saved for an out-of-order message, or else the chain's.
  abbrev take_key : RatchetSession → Str → ℕ → Option Str → Result (Bytes × RatchetSession)
  take_key session name msg_num (some saved) =
      ok (hex_to_buf saved, record session { skipped = Dict.remove name session.skipped })
  take_key session name msg_num none = advance_chain session msg_num

  unfoldable pub retrieve_key : RatchetSession → Str → ℕ → Result (Bytes × RatchetSession)
  retrieve_key session their_key msg_num =
      let name = skipped_name their_key msg_num in
      take_key session name msg_num (Dict.get name session.skipped)

-- `session.isInitiator && session.sendCount === 0 && session.pendingPreKeyMsg`
unfoldable pub first_params : RatchetSession → Option PendingPreKey
first_params session =
    if session.is_initiator && session.send_count == 0 then session.pending_pre_key_msg else none
