-- ===== src/Session/Ratchet/Arrivals.antt =====
-- A whole run of arrivals within one receiving chain.
use winkd.Prelude.{
  ℕ, ◌+◌, ◌≤◌, ◌≡◌, refl, Bool, false, List, [], ◌∷◌, Str, arith, All, map, str_eq_instance,
}
use winkd.Codec.Hex.{Bytes}
use winkd.Result.{Result, ok, ◌>>=◌}
use winkd.KeyTypes.{RatchetSession}
use winkd.Crypto.WebCrypto.{WebCrypto}
use winkd.Crypto.Assumptions.{IsWebCrypto}
use winkd.Crypto.Kdf.Chain.{message_key}
use winkd.Session.Ratchet.{retrieve_key, max_skip}
use winkd.Session.Ratchet.Delivery.{Receives, mark, retrieve_key-Receives}

-- The keys that a session hands out for messages in their order of arrival.
unfoldable pub retrieve_all :
    ⦃web : WebCrypto⦄ → RatchetSession → Str → List ℕ → Result (List Bytes)
retrieve_all s rk [] = ok []
retrieve_all s rk (n ∷ ns) = do
  (key, s') ← retrieve_key s rk n
  keys ← retrieve_all s' rk ns
  ok (key ∷ keys)

-- No number comes twice, and none was received before.
abbrev pub AllNew : (ℕ → Bool) → List ℕ → Type 0
AllNew received [] = Unit
AllNew received (n ∷ ns) = (received n ≡ false) × AllNew (mark n received) ns

abbrev pub AllWithin : ℕ → List ℕ → Type 0
AllWithin limit ns = All (λ n. n ≤ limit) ns

AllWithin-mono : (a b : ℕ) (ns : List ℕ) → a ≤ b → AllWithin a ns → AllWithin b ns
AllWithin-mono a b [] h w = tt
AllWithin-mono a b (n ∷ ns) h w = (omega arith, AllWithin-mono a b ns h w.1)

-- Messages of one chain that arrive in any order, each once and none more than 500 past the count
-- at the start, all get their own keys.
-- Assumes `IsWebCrypto`.
pub retrieve_all-message_keys :
    ⦃web : WebCrypto⦄
    → (laws : IsWebCrypto web) (ck : Bytes) (rk : Str) (received : ℕ → Bool) (s : RatchetSession)
      (ns : List ℕ)
    → Receives ck rk received s
    → AllNew received ns
    → AllWithin (s.recv_count + max_skip) ns
    → retrieve_all s rk ns ≡ ok (map (message_key ck) ns)
unfolding retrieve_all
retrieve_all-message_keys laws ck rk received s [] v new near = refl
retrieve_all-message_keys laws ck rk received s (n ∷ ns) v new near =
    let (s', e, v', _, up) = retrieve_key-Receives laws ck rk received s n v new.0 near.0 in
    rw (
      e,
      retrieve_all-message_keys laws ck rk (mark n received) s' ns v' new.1
          (AllWithin-mono (s.recv_count + 500) (s'.recv_count + 500) ns (omega arith) near.1),
    )
