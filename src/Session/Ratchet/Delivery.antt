-- ===== src/Session/Ratchet/Delivery.antt =====
-- Delivery within one receiving chain, in any order: the session refines the set of the message
-- numbers that were received.
use winkd.Prelude.{
  ℕ, suc, ◌+◌, ◌-◌, ◌<◌, ◌≤◌, ◌≡◌, ◌≢◌, refl, Bool, true, false, ◌&&◌, not, some, none, Str, arith,
  ltb, ◌==◌, str_eq_instance, if◌then◌else◌, [], ◌∷◌, length, inl, inr, Bool-cases,
}
use winkd.Prelude.Dict
use winkd.Prelude.Dict.{get-remove}
use winkd.Codec.Hex.{Bytes, buf_to_hex}
use winkd.Codec.Hex.Laws.{hex_to_buf-buf_to_hex, length-buf_to_hex}
use winkd.Result.{ok, err, too_many_skipped}
use winkd.KeyTypes.{RatchetSession}
use winkd.Crypto.WebCrypto.{WebCrypto}
use winkd.Crypto.Assumptions.{IsWebCrypto}
use winkd.Crypto.Kdf.Chain.{
  IsKey, chain, message_key, chain-IsKey, message_key-IsKey, kdf_chain_key-chain,
}
use winkd.Session.Ratchet.{
  max_skip, truthy, skip_from, skip_message_keys, advance_chain, retrieve_key, skipped_name,
}
use winkd.Session.Ratchet.Names.{str_eq-skipped_name}
use winkd.Session.Ratchet.Skipping.{save_range, get-save_range, skip_loop-eq}

-- One more message is received.
abbrev pub mark : ℕ → (ℕ → Bool) → ℕ → Bool
mark n received j = if n == j then true else received j

module _ ⦃web : WebCrypto⦄ where
  -- The session holds the chain that began with `ck`, under the ratchet key `rk`: it stands at the
  -- chain key of message `recvCount`, and the key of each earlier message is saved exactly if
  -- that message was not received.
  pub record Receives (ck : Bytes) (rk : Str) (received : ℕ → Bool) (s : RatchetSession)
      : Type 0 where
    pub key : IsKey ck
    pub named : truthy (some rk) ≡ some rk
    pub their : s.their_ratchet_public ≡ some rk
    pub at_chain : s.recv_chain_key ≡ some (buf_to_hex (chain ck s.recv_count))
    pub saved :
        (n : ℕ)
        → Dict.get (skipped_name rk n) s.skipped ≡ (
            if ltb n s.recv_count && not (received n)
            then some (buf_to_hex (message_key ck n))
            else none)
    pub below : (n : ℕ) → received n ≡ true → n < s.recv_count

  -- The session after the keys of the messages up to `target` are saved.
  pub skipped_to : Bytes → Str → RatchetSession → ℕ → RatchetSession
  skipped_to ck rk s target = record s {
    recv_chain_key = some (buf_to_hex (chain ck (s.recv_count + (target - s.recv_count))));
    recv_count = s.recv_count + (target - s.recv_count);
    skipped = save_range ck rk (target - s.recv_count) s.recv_count s.skipped;
  }

pub truthy-some : (t : Str) → length t ≢ 0 → truthy (some t) ≡ some t
truthy-some [] h = absurd (h refl)
truthy-some (c ∷ t) h = refl

pub truthy-hex : (k : Bytes) → IsKey k → truthy (some (buf_to_hex k)) ≡ some (buf_to_hex k)
truthy-hex k h = truthy-some (buf_to_hex k) (omega (arith, length-buf_to_hex k, h.1))

module _ ⦃web : WebCrypto⦄ (laws : IsWebCrypto web) (ck : Bytes) (rk : Str) where
  pub skip_message_keys-eq :
      (received : ℕ → Bool) (s : RatchetSession) (target : ℕ)
      → Receives ck rk received s
      → target ≤ s.recv_count + max_skip
      → skip_message_keys s target ≡ ok (skipped_to ck rk s target)
  unfolding skip_message_keys skip_from skipped_to
  skip_message_keys-eq received s target v h =
      let near : ltb (s.recv_count + 500) target ≡ false = ground arith in
      rw (
        v.at_chain,
        truthy-hex (chain ck s.recv_count) (chain-IsKey laws ck s.recv_count v.key),
        v.their,
        v.named,
        near,
        skip_loop-eq laws ck rk (target - s.recv_count) s.recv_count
            (s.recv_count + (target - s.recv_count)) s.skipped v.key refl,
      )

  -- After `advance_chain` at message n.
  advanced : RatchetSession → ℕ → RatchetSession
  unfolding skipped_to
  advanced s n = record (skipped_to ck rk s n) {
    recv_chain_key = some (buf_to_hex (chain ck (suc n)));
    recv_count = suc n;
  }

  advance_chain-eq :
      (received : ℕ → Bool) (s : RatchetSession) (n : ℕ)
      → Receives ck rk received s
      → s.recv_count ≤ n
      → n ≤ s.recv_count + max_skip
      → advance_chain s n ≡ ok (message_key ck n, advanced s n)
  unfolding advance_chain advanced
  advance_chain-eq received s n v lo hi =
      let at : s.recv_count + (n - s.recv_count) ≡ n = omega arith in
      rw (skip_message_keys-eq received s n v hi) (
        rw (
          at,
          truthy-hex (chain ck n) (chain-IsKey laws ck n v.key),
          kdf_chain_key-chain laws ck n v.key,
        ))

  -- A message whose number is new moves the chain past it.
  advanced-Receives :
      (received : ℕ → Bool) (s : RatchetSession) (n : ℕ)
      → Receives ck rk received s
      → s.recv_count ≤ n
      → Receives ck rk (mark n received) (advanced s n)
  unfolding advanced skipped_to
  advanced-Receives received s n v lo = record {
    key = v.key;
    named = v.named;
    their = v.their;
    at_chain = refl;
    saved = λ j.
        rw (get-save_range ck rk (n - s.recv_count) s.recv_count j s.skipped, v.saved j)
          (ground (arith, v.below j));
    below = λ j h. ground (arith, v.below j);
  }

  -- A saved key is used up.
  taken-Receives :
      (received : ℕ → Bool) (s : RatchetSession) (n : ℕ)
      → Receives ck rk received s
      → n < s.recv_count
      → Receives ck rk
          (mark n received)
          (record s { skipped = Dict.remove (skipped_name rk n) s.skipped })
  taken-Receives received s n v lt = record {
    key = v.key;
    named = v.named;
    their = v.their;
    at_chain = v.at_chain;
    saved = λ j. rw (get-remove, str_eq-skipped_name rk n j, v.saved j) (ground arith);
    below = λ j h. ground (arith, v.below j);
  }

  -- In a session that holds the chain of `ck`, a message n that was not received and lies at most
  -- 500 past the count gets its own key, wherever it stands in the order of arrival; the session
  -- then holds the chain with n received, only the receiving side of it has changed, and the count
  -- has not gone down.
  -- Assumes `IsWebCrypto`.
  pub retrieve_key-Receives :
      (received : ℕ → Bool) (s : RatchetSession) (n : ℕ)
      → Receives ck rk received s
      → received n ≡ false
      → n ≤ s.recv_count + max_skip
      → (s' : RatchetSession) × (retrieve_key s rk n ≡ ok (message_key ck n, s'))
        × Receives ck rk (mark n received) s'
        × (s' ≡ record s {
          recv_chain_key = s'.recv_chain_key;
          recv_count = s'.recv_count;
          skipped = s'.skipped;
        })
        × (s.recv_count ≤ s'.recv_count)
  unfolding retrieve_key advanced skipped_to
  retrieve_key-Receives received s n v new near = elim (Bool-cases (ltb n s.recv_count)) [
    | inl old ↦ (
      record s { skipped = Dict.remove (skipped_name rk n) s.skipped },
      rw (
        v.saved n,
        old,
        new,
        hex_to_buf-buf_to_hex (message_key ck n) (message_key-IsKey laws ck n v.key).0,
      ),
      taken-Receives received s n v (ground arith),
      refl,
      omega arith,
    )
    | inr ahead ↦ (
      advanced s n,
      rw (v.saved n, ahead) (advance_chain-eq received s n v (ground arith) near),
      advanced-Receives received s n v (ground arith),
      refl,
      ground arith,
    )
  ]

  -- In a session that holds the chain of `ck`, a message more than 500 past the count is refused.
  -- Assumes `IsWebCrypto`.
  pub retrieve_key-far :
      (received : ℕ → Bool) (s : RatchetSession) (n : ℕ)
      → Receives ck rk received s
      → s.recv_count + max_skip < n
      → retrieve_key s rk n ≡ err too_many_skipped
  unfolding retrieve_key advance_chain skip_message_keys skip_from
  retrieve_key-far received s n v far =
      let ahead : ltb n s.recv_count ≡ false = ground arith in
      let over : ltb (s.recv_count + 500) n ≡ true = ground arith in
      rw (
        v.saved n,
        ahead,
        v.at_chain,
        truthy-hex (chain ck s.recv_count) (chain-IsKey laws ck s.recv_count v.key),
        v.their,
        v.named,
        over,
      )
