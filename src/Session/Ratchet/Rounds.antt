-- ===== src/Session/Ratchet/Rounds.antt =====
-- The `while` loop of `skipMessageKeys` with the condition of the source, and its end.
use winkd.Prelude.{
  ℕ, zero, suc, ◌+◌, ◌-◌, ◌≤◌, ◌≡◌, refl, false, Option, none, some, Str, str_eq_instance, ltb,
  arith, if◌then◌else◌, Bool-cases, inl, inr,
}
use winkd.Prelude.Dict
use winkd.Codec.Hex.{buf_to_hex}
use winkd.Result.{Result, ok, err, ◌>>=◌}
use winkd.Crypto.WebCrypto.{WebCrypto}
use winkd.Crypto.Kdf.{ChainStep, kdf_chain_key}
use winkd.Session.Ratchet.{SkipState, skip_loop, skipped_name}

module _ ⦃web : WebCrypto⦄ where
  abbrev skip_one : Str → SkipState → ChainStep → SkipState
  skip_one their_public s step = record {
    chain_key = step.next_chain_key;
    count = suc s.count;
    skipped = Dict.put (skipped_name their_public s.count) (buf_to_hex step.message_key) s.skipped;
  }

  -- What follows the `await` of a round.
  abbrev after_round :
      Result ChainStep → (ChainStep → Option (Result SkipState)) → Option (Result SkipState)
  after_round (ok step) f = f step
  after_round (err e) f = some (err e)

  -- `while (session.recvCount < target)`; `none` when the fuel is used up.
  unfoldable pub while_below : (fuel target : ℕ) → Str → SkipState → Option (Result SkipState)
  while_below zero target their_public s = if ltb s.count target then none else some (ok s)
  while_below (suc fuel) target their_public s =
      if ltb s.count target
      then after_round (kdf_chain_key s.chain_key)
          (λ step. while_below fuel target their_public (skip_one their_public s step))
      else some (ok s)

  after_round-some :
      (r : Result ChainStep) (f : ChainStep → Option (Result SkipState))
      (g : ChainStep → Result SkipState)
      → ((step : ChainStep) → f step ≡ some (g step))
      → after_round r f ≡ some (r >>= g)
  after_round-some (ok step) f g h = h step
  after_round-some (err e) f g h = refl

  -- With fuel for the numbers between the count and the target, or more, the `while` loop of
  -- `skipMessageKeys` ends, whatever the keys are, and its result is that of the loop that runs for
  -- as many rounds as lie between.
  pub while_below-skip_loop :
      (fuel target : ℕ) (their_public : Str) (s : SkipState)
      → target ≤ s.count + fuel
      → while_below fuel target their_public s ≡ some (skip_loop (target - s.count) their_public s)
  unfolding while_below skip_loop
  while_below-skip_loop zero target their_public s h =
      let e : ltb s.count target ≡ false = ground arith in
      let f : target - s.count ≡ 0 = omega arith in rw (e, f) refl
  while_below-skip_loop (suc fuel) target their_public s h =
      elim (Bool-cases (ltb s.count target)) [
        | inl e ↦
            let f : target - s.count ≡ suc (target - suc s.count) = ground arith in
            rw (e, f)
              (after_round-some (kdf_chain_key s.chain_key) _ _ (λ step.
                while_below-skip_loop fuel target their_public (skip_one their_public s step)
                  (omega arith)))
        | inr e ↦ let f : target - s.count ≡ 0 = ground arith in rw (e, f) refl
      ]
