-- ===== src/Text/Split/Matches.antt =====
-- A piece is a match, or has none.
use winkd.Prelude.{
  ℕ, zero, suc, ◌≡◌, ◌≢◌, refl, ap, ◌∙◌, ◌⊎◌, inl, inr, false, List, [], ◌∷◌, ◌++◌, Str, All, take,
  ltb, arith, Bool-cases,
}
use winkd.Text.Split.{cons_head, outside, pieces, split_by, has_match}
use winkd.Text.Split.Laws.{concat_texts, concat_texts-pieces}

abbrev first_piece : List Str → Str
first_piece [] = []
first_piece (p ∷ ps) = p

abbrev later_pieces : List Str → List Str
later_pieces [] = []
later_pieces (p ∷ ps) = ps

-- More text after a match does not undo it.
abbrev pub IsMonotone : (Str → ℕ) → Type 0
IsMonotone matched = (s t : Str) → matched s ≢ 0 → matched (s ++ t) ≢ 0

-- A piece without a match, or a good one.
abbrev pub IsPiece : (Str → ℕ) → (Str → Type 0) → Str → Type 0
IsPiece matched Good p = (has_match matched p ≡ false) ⊎ Good p

module _ (matched : Str → ℕ) (Good : Str → Type 0)
    (good : (s : Str) (n : ℕ) → matched s ≡ suc n → Good (take (suc n) s))
    (monotone : IsMonotone matched) where
  StartsPlain : List Str → Type 0
  StartsPlain ps =
      (has_match matched (first_piece ps) ≡ false) × All (IsPiece matched Good) (later_pieces ps)

  StartsInside : ℕ → Str → List Str → Type 0
  StartsInside n s ps =
      (first_piece ps ≡ take n s)
      × All (IsPiece matched Good) (later_pieces ps)
      × (ps ≡ first_piece ps ∷ later_pieces ps)

  all_pieces : (ps : List Str) → StartsPlain ps → All (IsPiece matched Good) ps
  unfolding StartsPlain
  all_pieces [] h = tt
  all_pieces (p ∷ ps) (h, k) = (inl h, k)

  no_match : (c : ℕ) (p r : Str) → matched (c ∷ (p ++ r)) ≡ 0 → ltb 0 (matched (c ∷ p)) ≡ false
  no_match c p r e = elim (Bool-cases (ltb 0 (matched (c ∷ p)))) [
    | inr f ↦ f
    | inl f ↦ absurd (monotone (c ∷ p) r (λ z. absurd (ground arith)) e)
  ]

  -- A character at which no match begins goes to the piece before the next match.
  plain_longer :
      (c : ℕ) (s : Str) (ps : List Str)
      → matched (c ∷ s) ≡ 0
      → concat_texts ps ≡ s
      → StartsPlain ps
      → StartsPlain (cons_head c ps)
  unfolding StartsPlain has_match
  plain_longer c s [] e whole (h, k) = (rw (no_match c [] s e) refl, tt)
  plain_longer c s (p ∷ ps) e whole (h, k) =
      (rw (no_match c p (concat_texts ps) (ap (λ t. matched (c ∷ t)) whole ∙ e)) h, k)

  inside_longer :
      (n c : ℕ) (s : Str) (ps : List Str)
      → StartsInside (suc n) s ps
      → StartsInside (suc (suc n)) (c ∷ s) (cons_head c ps)
  unfolding StartsInside
  inside_longer n c s [] (h, k, e) = absurd cc
  inside_longer n c s (p ∷ ps) (h, k, e) = (ap (λ t. c ∷ t) h, k, refl)

  -- The piece that begins at a character, by the length of the match there.
  by_match :
      (n c : ℕ) (s : Str)
      → matched (c ∷ s) ≡ n
      → ((m : ℕ) → StartsInside (suc m) s (pieces matched (suc m) s))
      → StartsPlain (pieces matched 0 s)
      → StartsPlain
          (outside n c (pieces matched 0 s) (pieces matched (elim n [ zero ↦ 0 | suc m ↦ m ]) s))
  unfolding StartsPlain StartsInside has_match
  by_match zero c s e inside plain =
      plain_longer c s (pieces matched 0 s) e (concat_texts-pieces matched 0 s) plain
  by_match (suc zero) c s e inside plain =
      (refl, (inr (good (c ∷ s) 0 e), all_pieces (pieces matched 0 s) plain))
  by_match (suc (suc n)) c s e inside plain =
      let (h, k, f) = inside_longer n c s (pieces matched (suc n) s) (inside n) in
      (refl, rw f (inr (rw h (good (c ∷ s) (suc n) e)), k))

  inside_next :
      (c : ℕ) (s : Str)
      → ((m : ℕ) → StartsInside (suc m) s (pieces matched (suc m) s))
      → StartsPlain (pieces matched 0 s)
      → (n : ℕ) → StartsInside (suc n) (c ∷ s) (pieces matched (suc n) (c ∷ s))
  unfolding StartsInside StartsPlain pieces
  inside_next c s inside plain zero = (refl, all_pieces (pieces matched 0 s) plain, refl)
  inside_next c s inside plain (suc m) = inside_longer m c s (pieces matched (suc m) s) (inside m)

  pieces-both :
      (s : Str)
      → ((n : ℕ) → StartsInside (suc n) s (pieces matched (suc n) s))
        × StartsPlain (pieces matched 0 s)
  unfolding StartsInside StartsPlain pieces has_match
  pieces-both [] = (λ n. (refl, tt, refl), (refl, tt))
  pieces-both (c ∷ s) =
      let (inside, plain) = pieces-both s in
      (inside_next c s inside plain, by_match (matched (c ∷ s)) c s refl inside plain)

  -- Of the pieces of a text, each has no match in it, or is good because it is a match.
  pub All-split_by : (s : Str) → All (IsPiece matched Good) (split_by matched s)
  unfolding split_by
  All-split_by s = all_pieces (pieces matched 0 s) (pieces-both s).1
