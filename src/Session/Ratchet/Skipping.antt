-- ===== src/Session/Ratchet/Skipping.antt =====
-- What the loop of `skipMessageKeys` saves, and how far it moves the chain.
use winkd.Prelude.{
  ℕ, zero, suc, ◌+◌, ◌≡◌, ◌∙◌, ◌&&◌, some, Str, arith, ltb, leb, str_eq_instance, if◌then◌else◌,
}
use winkd.Prelude.Dict
use winkd.Prelude.Dict.{Dict, get-put}
use winkd.Codec.Hex.{Bytes, buf_to_hex}
use winkd.Result.{ok}
use winkd.Crypto.WebCrypto.{WebCrypto}
use winkd.Crypto.Assumptions.{IsWebCrypto}
use winkd.Crypto.Kdf.Chain.{IsKey, chain, message_key, kdf_chain_key-chain}
use winkd.Session.Ratchet.{SkipState, skip_loop, skipped_name}
use winkd.Session.Ratchet.Names.{str_eq-skipped_name}

module _ ⦃web : WebCrypto⦄ (ck : Bytes) (rk : Str) where
  -- The keys of `rounds` messages from `c` on, saved in order.
  pub save_range : ℕ → ℕ → Dict Str Str → Dict Str Str
  save_range zero c d = d
  save_range (suc rounds) c d =
      save_range rounds (suc c) (Dict.put (skipped_name rk c) (buf_to_hex (message_key ck c)) d)

  abbrev pub chain_state : ℕ → Dict Str Str → SkipState
  chain_state c d = record { chain_key = buf_to_hex (chain ck c); count = c; skipped = d }

  pub get-save_range :
      (rounds c n : ℕ) (d : Dict Str Str)
      → Dict.get (skipped_name rk n) (save_range rounds c d) ≡ (
          if leb c n && ltb n (c + rounds)
          then some (buf_to_hex (message_key ck n))
          else Dict.get (skipped_name rk n) d)
  unfolding save_range
  get-save_range zero c n d = ground arith
  get-save_range (suc rounds) c n d =
      get-save_range rounds (suc c) n
        (Dict.put (skipped_name rk c) (buf_to_hex (message_key ck c)) d)
      ∙ rw (get-put, str_eq-skipped_name rk c n) (ground arith)

module _ ⦃web : WebCrypto⦄ (laws : IsWebCrypto web) where
  -- From message c of a chain, `rounds` turns of the loop reach message c + rounds.
  pub skip_loop-eq :
      (ck : Bytes) (rk : Str) (rounds c m : ℕ) (d : Dict Str Str)
      → IsKey ck
      → m ≡ c + rounds
      → skip_loop rounds rk (chain_state ck rk c d)
        ≡ ok (chain_state ck rk m (save_range ck rk rounds c d))
  unfolding skip_loop save_range
  skip_loop-eq ck rk zero c m d key e = let e' : m ≡ c = omega arith in rw e'
  skip_loop-eq ck rk (suc rounds) c m d key e =
      rw (kdf_chain_key-chain laws ck c key)
        (skip_loop-eq ck rk rounds (suc c) m _ key (omega arith))
