-- ===== src/Session/Ratchet/Replays.antt =====
-- What happens to a message that was received before.
use winkd.Prelude.{
  ℕ, suc, ◌+◌, ◌-◌, ◌<◌, ◌≡◌, Bool, true, false, some, Str, arith, ltb, str_eq_instance,
}
use winkd.Codec.Hex.{Bytes, buf_to_hex}
use winkd.Result.{ok}
use winkd.KeyTypes.{RatchetSession}
use winkd.Crypto.WebCrypto.{WebCrypto}
use winkd.Crypto.Assumptions.{IsWebCrypto}
use winkd.Crypto.Kdf.Chain.{chain, message_key, chain-IsKey, kdf_chain_key-chain}
use winkd.Session.Ratchet.{retrieve_key, advance_chain, skip_message_keys, skip_from, skip_loop}
use winkd.Session.Ratchet.Delivery.{Receives, truthy-hex}

-- If a message n that was received already comes again, the call does not fail: it hands out the
-- key of the next message of the chain, moves the chain on by one, and sets the count back to
-- n + 1, which is below the chain's new position. No other part of the session changes.
-- Assumes `IsWebCrypto`.
pub retrieve_key_replay :
    ⦃web : WebCrypto⦄
    → (laws : IsWebCrypto web) (ck : Bytes) (rk : Str) (received : ℕ → Bool) (s : RatchetSession)
      (n : ℕ)
    → Receives ck rk received s
    → received n ≡ true
    → (retrieve_key s rk n
        ≡ ok (
          message_key ck s.recv_count,
          record s {
            recv_chain_key = some (buf_to_hex (chain ck (suc s.recv_count)));
            recv_count = suc n;
          },
        ))
      × (suc n < suc s.recv_count)
unfolding retrieve_key advance_chain skip_message_keys skip_from skip_loop
retrieve_key_replay laws ck rk received s n v old =
    let below : n < s.recv_count = v.below n old in
    let old_number : ltb n s.recv_count ≡ true = ground arith in
    let none_over : ltb (s.recv_count + 500) n ≡ false = ground arith in
    let rounds : n - s.recv_count ≡ 0 = omega arith in
    let known = truthy-hex (chain ck s.recv_count) (chain-IsKey laws ck s.recv_count v.key) in
    (
      rw (
        v.saved n,
        old,
        old_number,
        v.at_chain,
        known,
        v.their,
        v.named,
        none_over,
        rounds,
        known,
        kdf_chain_key-chain laws ck s.recv_count v.key,
      ),
      omega arith,
    )
