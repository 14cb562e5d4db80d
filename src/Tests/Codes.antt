-- ===== src/Tests/Codes.antt =====
-- Injective codes for lists, for the instances of the browser's functions.
use winkd.Prelude.{
  ℕ, zero, suc, ◌+◌, ◌<◌, ◌≡◌, refl, ap, ◌∙◌, List, [], ◌∷◌, ◌++◌, map, Str, arith, All-append,
  replicate,
}
use winkd.Codec.Hex.{Bytes, IsBytes}

-- Each number in unary, ended by 0.
unfoldable pub bits : List ℕ → Bytes
bits [] = []
bits (n ∷ ns) = replicate n 1 ++ 0 ∷ bits ns

unbits_from : ℕ → Bytes → List ℕ
unbits_from acc [] = []
unbits_from acc (zero ∷ r) = acc ∷ unbits_from 0 r
unbits_from acc (suc b ∷ r) = unbits_from (suc acc) r

unfoldable pub unbits : Bytes → List ℕ
unfolding unbits_from
unbits bs = unbits_from 0 bs

unbits_from-ones :
    (acc n m : ℕ) (r : Bytes)
    → m ≡ acc + n
    → unbits_from acc (replicate n 1 ++ 0 ∷ r) ≡ m ∷ unbits_from 0 r
unfolding unbits_from
unbits_from-ones acc zero m r e = ap (λ k. k ∷ unbits_from 0 r) (omega arith)
unbits_from-ones acc (suc n) m r e = unbits_from-ones (suc acc) n m r (omega arith)

pub unbits-bits : (ns : List ℕ) → unbits (bits ns) ≡ ns
unfolding unbits bits
unbits-bits [] = refl
unbits-bits (n ∷ ns) =
    unbits_from-ones 0 n n (bits ns) (omega arith) ∙ ap (λ r. n ∷ r) (unbits-bits ns)

pub All-replicate : (b n : ℕ) → b < 256 → IsBytes (replicate n b)
All-replicate b zero h = tt
All-replicate b (suc n) h = (h, All-replicate b n h)

pub bits-IsBytes : (ns : List ℕ) → IsBytes (bits ns)
unfolding bits
bits-IsBytes [] = tt
bits-IsBytes (n ∷ ns) =
    All-append _ (replicate n 1) (0 ∷ bits ns) (All-replicate 1 n (omega arith))
      (omega arith, bits-IsBytes ns)

-- Texts, each ended by 0.
unfoldable pub join : List Str → List ℕ
join [] = []
join (s ∷ ss) = map suc s ++ 0 ∷ join ss

cons_head : ℕ → List Str → List Str
cons_head c [] = (c ∷ []) ∷ []
cons_head c (s ∷ ss) = (c ∷ s) ∷ ss

unfoldable pub unjoin : List ℕ → List Str
unfolding cons_head
unjoin [] = []
unjoin (zero ∷ r) = [] ∷ unjoin r
unjoin (suc c ∷ r) = cons_head c (unjoin r)

unjoin-text : (s : Str) (r : List ℕ) → unjoin (map suc s ++ 0 ∷ r) ≡ s ∷ unjoin r
unfolding unjoin
unjoin-text [] r = refl
unjoin-text (c ∷ s) r = ap (cons_head c) (unjoin-text s r)

pub unjoin-join : (ss : List Str) → unjoin (join ss) ≡ ss
unfolding join
unjoin-join [] = unfold unjoin in refl
unjoin-join (s ∷ ss) = unjoin-text s (join ss) ∙ ap (λ r. s ∷ r) (unjoin-join ss)
