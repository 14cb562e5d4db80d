-- ===== src/Session/Ratchet/InOrder.antt =====
-- A receiving chain whose next message is the one that arrives.
use winkd.Prelude.{
  ℕ, suc, ◌+◌, ◌-◌, ◌≡◌, refl, ◌∙◌, ◌⊎◌, Bool, false, some, none, Str, arith, ltb, str_eq_instance,
  inl, inr,
}
use winkd.Codec.Hex.{Bytes, buf_to_hex}
use winkd.Result.{ok}
use winkd.KeyTypes.{RatchetSession}
use winkd.Crypto.WebCrypto.{WebCrypto}
use winkd.Crypto.Assumptions.{IsWebCrypto}
use winkd.Crypto.Kdf.Chain.{chain, message_key, chain-IsKey, kdf_chain_key-chain}
use winkd.Session.Ratchet.{
  truthy, skip_loop, skip_from, skip_message_keys, advance_chain, retrieve_key,
}
use winkd.Session.Ratchet.Delivery.{Receives, truthy-hex}

-- All messages before n were received.
abbrev pub before : ℕ → ℕ → Bool
before n j = ltb j n

module _ ⦃web : WebCrypto⦄ where
  -- There is no receiving chain, or it stands at the message of that number.
  abbrev pub CaughtUp : ℕ → RatchetSession → Type 0
  CaughtUp n s =
      (truthy s.recv_chain_key ≡ none)
      ⊎ ((ck : Bytes) × (rk : Str) × (received : ℕ → Bool) × Receives ck rk received s
          × (s.recv_count ≡ n))

  -- The session after the next message of its chain was received.
  unfoldable pub after_receive : Bytes → RatchetSession → RatchetSession
  after_receive ck s = record s {
    recv_chain_key = some (buf_to_hex (chain ck (suc s.recv_count)));
    recv_count = suc s.recv_count;
  }

module _ ⦃web : WebCrypto⦄ (laws : IsWebCrypto web) where
  -- No key is skipped on the way to where the chain stands.
  skip_message_keys_self :
      (ck : Bytes) (rk : Str) (received : ℕ → Bool) (s : RatchetSession)
      → Receives ck rk received s
      → skip_message_keys s s.recv_count ≡ ok s
  unfolding skip_message_keys skip_from skip_loop
  skip_message_keys_self ck rk received s v =
      let near : ltb (s.recv_count + 500) s.recv_count ≡ false = ground arith in
      let none_left : s.recv_count - s.recv_count ≡ 0 = omega arith in
      rw
        (
          v.at_chain,
          truthy-hex (chain ck s.recv_count) (chain-IsKey laws ck s.recv_count v.key),
          v.their,
          v.named,
          near,
          none_left,
        )
        refl

  pub skip_message_keys-CaughtUp :
      (n : ℕ) (s : RatchetSession) → CaughtUp n s → skip_message_keys s n ≡ ok s
  unfolding skip_message_keys
  skip_message_keys-CaughtUp n s (inl e) = rw e refl
  skip_message_keys-CaughtUp n s (inr (ck, rk, received, v, e)) =
      rw (← e) (skip_message_keys_self ck rk received s v)

  -- The next message of a chain gets its key.
  pub retrieve_key_next :
      (ck : Bytes) (rk : Str) (received : ℕ → Bool) (s : RatchetSession)
      → Receives ck rk received s
      → retrieve_key s rk s.recv_count ≡ ok (message_key ck s.recv_count, after_receive ck s)
  unfolding retrieve_key advance_chain after_receive
  retrieve_key_next ck rk received s v =
      let ahead : ltb s.recv_count s.recv_count ≡ false = ground arith in
      rw (v.saved s.recv_count, ahead, skip_message_keys_self ck rk received s v)
        (rw
          (
            v.at_chain,
            truthy-hex (chain ck s.recv_count) (chain-IsKey laws ck s.recv_count v.key),
            kdf_chain_key-chain laws ck s.recv_count v.key,
          )
          refl)

  -- That message is then received too.
  pub after_receive-Receives :
      (ck : Bytes) (rk : Str) (s : RatchetSession)
      → Receives ck rk (before s.recv_count) s
      → Receives ck rk (before (suc s.recv_count)) (after_receive ck s)
  unfolding after_receive
  after_receive-Receives ck rk s v = record {
    key = v.key;
    named = v.named;
    their = v.their;
    at_chain = refl;
    saved = λ j. v.saved j ∙ ground arith;
    below = λ j h. ground arith;
  }
